-- ===== src/Model/Entry.antt =====
-- A cache entry (pkg/model/entry.go) and the rule of its path (pkg/config/config.go). Map headers of
-- a rule are listed; a nil pointer is `none`.
use adv_cache.Prelude.{
  ℕ, Bool, true, false, ◌&&◌, Option, none, some, List, [], ◌∷◌, ◌==◌, if◌then◌else◌,
}
use adv_cache.Model.Binary.{Bytes}

pub record Rule : Type 0 where
  pub path_bytes : Bytes
  -- CacheKey.QueryBytes
  pub query_bytes : List Bytes
  -- the keys of CacheKey.HeadersMap, in the order of an iteration over it
  pub headers : List Bytes

-- An element of the LRU list of a shard: the list, and the element's address in it.
pub record Pointer : Type 0 where
  pub list : ℕ
  pub address : ℕ

pub record Entry : Type 0 where
  pub key : ℕ
  pub shard : ℕ
  pub fingerprint : Bytes
  pub rule : Rule
  pub payload : Option Bytes
  pub lru_list_elem : Option Pointer
  pub refreshed_at : ℕ

unfoldable pub bytes_equal : Bytes → Bytes → Bool
bytes_equal [] [] = true
bytes_equal (a ∷ xs) (b ∷ ys) = a == b && bytes_equal xs ys
bytes_equal _ _ = false

-- The rules of the configuration by their path.
abbrev pub Rules : Type 0
Rules = List Rule

unfoldable pub match_rule : Rules → Bytes → Option Rule
unfolding bytes_equal
match_rule [] path = none
match_rule (r ∷ rules) path =
    if bytes_equal r.path_bytes path then some r else match_rule rules path

-- payloadBytes: a nil pointer gives the nil slice.
unfoldable pub payload_bytes : Entry → Bytes
payload_bytes e = elim e.payload [ none ↦ [] | some p ↦ p ]

unfoldable pub new_entry_from_field : ℕ → ℕ → Bytes → Bytes → Rule → ℕ → Entry
new_entry_from_field key shard fingerprint payload rule updated_at = record {
  key = key;
  shard = shard;
  fingerprint = fingerprint;
  rule = rule;
  payload = some payload;
  lru_list_elem = none;
  refreshed_at = updated_at;
}

unfoldable pub is_same_fingerprint : Entry → Bytes → Bool
unfolding bytes_equal
is_same_fingerprint e another = bytes_equal e.fingerprint another
