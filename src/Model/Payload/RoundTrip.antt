-- ===== src/Model/Payload/RoundTrip.antt =====
-- Reading back what `SetPayload` packed (pkg/model/payload.go).
use mathlib.Core.List.{append_assoc}
use adv_cache.Prelude.{ℕ, ◌^◌, ◌<◌, ◌≡◌, refl, some, [], ◌∷◌, ◌++◌, length, arith, All}
use adv_cache.Model.Binary.{
  Bytes, put_u32, u32, take_bytes-append, take_bytes_of_length, u32-put_u32,
}
use adv_cache.Model.Entry.{Entry, payload_bytes}
use adv_cache.Model.Payload.{
  Headers, Request, Response, put_query_headers, put_response_headers, pack, set_payload,
  read_bytes, read_query_headers, read_values, read_response_headers, Unpacked, unpack, unpacked,
  read_payload, payload,
}

-- The length of a run of bytes fits 32 bits; so do those of both parts of each header.
abbrev pub Short : Bytes → Type 0
Short bs = length bs < 2 ^ 32

abbrev pub ShortHeaders : Headers → Type 0
ShortHeaders = All (λ h. Short h.0 × Short h.1)

read_bytes-put_bytes :
    (bs rest : Bytes)
    → Short bs
    → read_bytes (put_u32 (length bs) ++ (bs ++ rest)) ≡ some (bs, rest)
unfolding read_bytes
read_bytes-put_bytes bs rest h =
    rw (u32-put_u32 (length bs) (bs ++ rest) h) (take_bytes-append bs rest)

read_query_headers-put :
    (hs : Headers) (rest : Bytes)
    → ShortHeaders hs
    → read_query_headers (length hs) (put_query_headers hs ++ rest) ≡ some (hs, rest)
unfolding read_query_headers put_query_headers
read_query_headers-put [] rest h = refl
read_query_headers-put ((k, v) ∷ hs) rest h = simp append_assoc (
    rw (read_bytes-put_bytes k _ h.0.0)
      (rw (read_bytes-put_bytes v _ h.0.1) (rw (read_query_headers-put hs rest h.1))))

read_response_headers-put :
    (hs : Headers) (rest : Bytes)
    → ShortHeaders hs
    → read_response_headers (length hs) (put_response_headers hs ++ rest) ≡ some (hs, rest)
unfolding read_response_headers put_response_headers read_values
read_response_headers-put [] rest h = refl
read_response_headers-put ((k, v) ∷ hs) rest h = simp append_assoc (
    rw (read_bytes-put_bytes k _ h.0.0) (
      rw (u32-put_u32 1 _ (omega arith))
        (rw (read_bytes-put_bytes v _ h.0.1) (rw (read_response_headers-put hs rest h.1)))))

-- The sizes that the format can hold, and Header.Len(), which counts the headers.
pub record Packable (req : Request) (resp : Response) : Type 0 where
  pub path : Short req.path
  pub query : Short req.query
  pub headers : ShortHeaders req.headers
  pub headers_len : req.headers_len ≡ length req.headers
  pub few_headers : length req.headers < 2 ^ 32
  pub status : resp.status < 2 ^ 32
  pub resp_headers : ShortHeaders resp.headers
  pub resp_headers_len : resp.headers_len ≡ length resp.headers
  pub few_resp_headers : length resp.headers < 2 ^ 32

length-put_u32 : (n : ℕ) → length (put_u32 n) ≡ 4
unfolding put_u32
length-put_u32 n = refl

unpack-pack :
    (req : Request) (resp : Response)
    → Packable req resp
    → unpack (pack req resp)
      ≡ some (record {
        path = req.path;
        query = req.query;
        query_headers = req.headers;
        status = resp.status;
        headers = resp.headers;
        body = resp.body;
      })
unfolding unpack pack
unpack-pack req resp p = simp append_assoc (
    rw (read_bytes-put_bytes req.path _ p.path) (
      rw (read_bytes-put_bytes req.query _ p.query) (
        rw (p.headers_len, u32-put_u32 (length req.headers) _ p.few_headers)
          (rw (read_query_headers-put req.headers _ p.headers) (
            rw (u32-put_u32 resp.status _ p.status) (
              rw (p.resp_headers_len, u32-put_u32 (length resp.headers) _ p.few_resp_headers)
                (rw (read_response_headers-put resp.headers _ p.resp_headers) (
                  rw (
                    take_bytes_of_length 4 (put_u32 (length resp.body)) resp.body
                      (length-put_u32 (length resp.body)))))))))))

-- A buffer that unpacks is not empty.
read_payload-unpack :
    (bs : Bytes) (u : Unpacked) → unpack bs ≡ some u → read_payload bs ≡ some (unpacked u)
unfolding read_payload unpack read_bytes u32
read_payload-unpack [] u h = cc
read_payload-unpack (b ∷ bs) u h = rw h

-- What `SetPayload` stored, `Payload` reads back: the path, the query and the headers of the
-- request, the status, the headers and the body of the response, if the lengths and the counts fit
-- 32 bits and Header.Len() counts the headers.
pub payload-set_payload :
    (now : ℕ) (req : Request) (resp : Response) (e : Entry)
    → Packable req resp
    → payload (set_payload now req resp e)
      ≡ some (
          unpacked (record {
            path = req.path;
            query = req.query;
            query_headers = req.headers;
            status = resp.status;
            headers = resp.headers;
            body = resp.body;
          }))
unfolding payload set_payload payload_bytes
payload-set_payload now req resp e p =
    read_payload-unpack (pack req resp) _ (unpack-pack req resp p)
