-- ===== src/Model/Payload.antt =====
-- How a request and its response are packed into one buffer, and read back (pkg/model/payload.go).
-- Header.Len() of fasthttp is a field beside the headers that Header.All() visits. The reader's
-- calls of fasthttp are given by their arguments.
pub mod RoundTrip
use adv_cache.Prelude.{
  ℕ, zero, suc, ◌+◌, Bool, true, false, Option, none, some, List, [], ◌∷◌, ◌++◌, length,
}
use adv_cache.Model.Binary.{Bytes, Reader, ◌>>=◌, put_u32, u32, take_bytes}
use adv_cache.Model.Entry.{Entry, payload_bytes, bytes_equal}

abbrev pub Headers : Type 0
Headers = List (Bytes × Bytes)

pub record Request : Type 0 where
  pub path : Bytes
  pub query : Bytes
  pub headers : Headers
  pub headers_len : ℕ

pub record Response : Type 0 where
  pub status : ℕ
  pub headers : Headers
  pub headers_len : ℕ
  pub body : Bytes

-- Four bytes of length, then the bytes.
abbrev pub put_bytes : Bytes → Bytes
put_bytes bs = put_u32 (length bs) ++ bs

unfoldable pub put_query_headers : Headers → Bytes
put_query_headers [] = []
put_query_headers ((k, v) ∷ rest) = put_bytes k ++ (put_bytes v ++ put_query_headers rest)

-- Each header has a number of values, which is always 1.
unfoldable pub put_response_headers : Headers → Bytes
put_response_headers [] = []
put_response_headers ((k, v) ∷ rest) =
    put_bytes k ++ (put_u32 1 ++ (put_bytes v ++ put_response_headers rest))

unfoldable pub pack : Request → Response → Bytes
pack req resp =
    put_bytes req.path
    ++ (put_bytes req.query
        ++ (put_u32 req.headers_len
            ++ (put_query_headers req.headers
                ++ (put_u32 resp.status
                    ++ (put_u32 resp.headers_len
                        ++ (put_response_headers resp.headers ++ put_bytes resp.body))))))

-- SetPayload, at the time `now`.
unfoldable pub set_payload : ℕ → Request → Response → Entry → Entry
set_payload now req resp e = record e { payload = some (pack req resp); refreshed_at = now }

unfoldable pub read_bytes : Reader Bytes
read_bytes bs = do (n, rest) ← u32 bs; take_bytes n rest

-- The arguments of AddBytesKV, in the order of the calls.
unfoldable pub read_query_headers : ℕ → Reader Headers
read_query_headers zero bs = some ([], bs)
read_query_headers (suc n) bs = do
  (k, bs1) ← read_bytes bs
  (v, bs2) ← read_bytes bs1
  (rest, bs3) ← read_query_headers n bs2
  some ((k, v) ∷ rest, bs3)

unfoldable pub read_values : ℕ → Bytes → Reader Headers
read_values zero key bs = some ([], bs)
read_values (suc n) key bs = do
  (v, bs1) ← read_bytes bs
  (rest, bs2) ← read_values n key bs1
  some ((key, v) ∷ rest, bs2)

unfoldable pub read_response_headers : ℕ → Reader Headers
read_response_headers zero bs = some ([], bs)
read_response_headers (suc n) bs = do
  (key, bs1) ← read_bytes bs
  (num_vals, bs2) ← u32 bs1
  (vals, bs3) ← read_values num_vals key bs2
  (rest, bs4) ← read_response_headers n bs3
  some (vals ++ rest, bs4)

-- What fasthttp is told of the request and of the response.
pub record Unpacked : Type 0 where
  pub path : Bytes
  pub query : Bytes
  pub query_headers : Headers
  pub status : ℕ
  pub headers : Headers
  pub body : Bytes

unfoldable pub unpack : Bytes → Option Unpacked
unpack bs = do
  (path, bs1) ← read_bytes bs
  (query, bs2) ← read_bytes bs1
  (num_query_headers, bs3) ← u32 bs2
  (query_headers, bs4) ← read_query_headers num_query_headers bs3
  (status, bs5) ← u32 bs4
  (num_headers, bs6) ← u32 bs5
  (headers, bs7) ← read_response_headers num_headers bs6
  (_, body) ← take_bytes 4 bs7
  some (record {
    path = path;
    query = query;
    query_headers = query_headers;
    status = status;
    headers = headers;
    body = body;
  })

-- What `Payload` returns, if it does not panic.
pub data PayloadResult : Type 0 where
  unpacked : Unpacked → PayloadResult
  payload_is_empty : PayloadResult

abbrev as_result : Option Unpacked → Option PayloadResult
as_result none = none
as_result (some u) = some (unpacked u)

unfoldable pub read_payload : Bytes → Option PayloadResult
read_payload [] = some payload_is_empty
read_payload (b ∷ bs) = as_result (unpack (b ∷ bs))

unfoldable pub payload : Entry → Option PayloadResult
payload e = read_payload (payload_bytes e)
