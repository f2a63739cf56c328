-- ===== src/Tests/Requests.antt =====
-- Requests, entries and payloads at concrete inputs; the hash is the length.
use adv_cache.Prelude.{ℕ, ◌≡◌, refl, true, some, none, [], ◌∷◌, ◌++◌, arith, length}
use adv_cache.Sort.{Pair}
use adv_cache.Sort.Sorted.{Reordered, same, exchange}
use adv_cache.Model.Binary.{Bytes}
use adv_cache.Model.Entry.{Entry, Rule, Rules, match_rule, bytes_equal, payload_bytes}
use adv_cache.Model.Payload.{Request, Response, set_payload, payload, unpacked}
use adv_cache.Model.Payload.RoundTrip.{Packable, payload-set_payload}
use adv_cache.Model.ToBytes.{to_bytes, entry, entry_from_bytes}
use adv_cache.Model.ToBytes.RoundTrip.{Fits, entry_from_bytes-to_bytes}
use adv_cache.Model.Compare.{is_bytes_are_equals}
use adv_cache.Model.Compare.Windows.{is_bytes_are_equals-windows}
use adv_cache.Model.Query.{parse_query}
use adv_cache.Model.Query.Panic.{parse_query-panics}
use adv_cache.Model.Keys.{Hasher, new_entry}
use adv_cache.Model.Keys.Canonical.{new_entry-Reordered}

abbrev pub api_rule : Rule
api_rule = record {
  path_bytes = b'/' ∷ b'a' ∷ [];
  query_bytes = (b'x' ∷ []) ∷ (b'y' ∷ []) ∷ [];
  headers = [];
}

abbrev other_rule : Rule
other_rule = record {
  path_bytes = b'/' ∷ b'b' ∷ [];
  query_bytes = (b'x' ∷ []) ∷ (b'y' ∷ []) ∷ [];
  headers = [];
}

abbrev pub rules : Rules
rules = api_rule ∷ other_rule ∷ []

abbrev pub sixteen : ℕ → Bytes
sixteen b = b ∷ b ∷ b ∷ b ∷ b ∷ b ∷ b ∷ b ∷ b ∷ b ∷ b ∷ b ∷ b ∷ b ∷ b ∷ b ∷ []

abbrev pub an_entry : Entry
an_entry = record {
  key = 5;
  shard = 5;
  fingerprint = sixteen 7;
  rule = api_rule;
  payload = some (1 ∷ 2 ∷ []);
  lru_list_elem = none;
  refreshed_at = 900;
}

abbrev pub a_request : Request
a_request = record {
  path = b'/' ∷ b'a' ∷ [];
  query = b'x' ∷ b'=' ∷ b'1' ∷ [];
  headers = (b'h' ∷ [], b'v' ∷ []) ∷ [];
  headers_len = 1;
}

abbrev pub a_response : Response
a_response = record {
  status = 200;
  headers = (b'e' ∷ [], b'f' ∷ []) ∷ [];
  headers_len = 1;
  body = b'o' ∷ b'k' ∷ [];
}

pub an_entry-Packable : Packable a_request a_response
an_entry-Packable = record {
  path = omega arith;
  query = omega arith;
  headers = ((omega arith, omega arith), tt);
  headers_len = refl;
  few_headers = omega arith;
  status = omega arith;
  resp_headers = ((omega arith, omega arith), tt);
  resp_headers_len = refl;
  few_resp_headers = omega arith;
}

payload-set_payload_example :
    payload (set_payload 77 a_request a_response an_entry)
    ≡ some (
        unpacked (record {
          path = a_request.path;
          query = a_request.query;
          query_headers = a_request.headers;
          status = 200;
          headers = a_response.headers;
          body = a_response.body;
        }))
payload-set_payload_example = payload-set_payload 77 a_request a_response an_entry an_entry-Packable

pub an_entry-Fits : Fits an_entry
unfolding payload_bytes
an_entry-Fits = record {
  path = omega arith;
  key = omega arith;
  shard = omega arith;
  fingerprint = refl;
  refreshed_at = omega arith;
  payload = omega arith;
}

entry_from_bytes-to_bytes_example :
    entry_from_bytes rules (to_bytes an_entry ++ 9 ∷ []) ≡ some (entry an_entry)
unfolding match_rule bytes_equal payload_bytes
entry_from_bytes-to_bytes_example =
    entry_from_bytes-to_bytes rules an_entry (9 ∷ []) an_entry-Fits refl

abbrev first_arg : Pair
first_arg = (b'y' ∷ [], b'2' ∷ [])

abbrev second_arg : Pair
second_arg = (b'x' ∷ [], b'1' ∷ [])

abbrev reordered_args : Reordered (first_arg ∷ second_arg ∷ []) (second_arg ∷ first_arg ∷ [])
reordered_args =
    exchange [] [] first_arg second_arg (λ e. ground arith) (same (second_arg ∷ first_arg ∷ []))

abbrev hasher : Hasher
hasher = record { sum64 = length; lo = length; hi = length }

new_entry-Reordered_example :
    new_entry hasher 3 rules (b'/' ∷ b'a' ∷ []) (first_arg ∷ second_arg ∷ []) (λ h. [])
    ≡ new_entry hasher 3 rules (b'/' ∷ b'a' ∷ []) (second_arg ∷ first_arg ∷ []) (λ h. [])
new_entry-Reordered_example =
    new_entry-Reordered hasher 3 rules (b'/' ∷ b'a' ∷ []) (λ h. []) reordered_args

parse_query-panics_example : parse_query (b'=' ∷ b'x' ∷ []) ≡ none
parse_query-panics_example = parse_query-panics b'x' [] (λ e. omega arith)

abbrev long_body : ℕ → Bytes
long_body b = 0 ∷ 0 ∷ 0 ∷ 0 ∷ 0 ∷ 0 ∷ 0 ∷ 0 ∷ 0 ∷ b ∷ (sixteen 8 ++ sixteen 9)

is_bytes_are_equals-windows_example : is_bytes_are_equals length (long_body 1) (long_body 2) ≡ true
is_bytes_are_equals-windows_example =
    is_bytes_are_equals-windows length (long_body 1) (long_body 2) refl (omega arith) refl refl refl
