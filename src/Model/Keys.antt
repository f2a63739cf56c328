-- ===== src/Model/Keys.antt =====
-- The key, the fingerprint and the shard of an entry (pkg/model/keys.go, pkg/model/entry.go). The
-- hash xxh3 is a parameter: Sum64, and the two halves of Sum128.
pub mod Canonical
use adv_cache.Prelude.{ℕ, Option, none, some, List, [], ◌∷◌, ◌++◌}
use adv_cache.Model.Binary.{Bytes, put_u64}
use adv_cache.Model.Entry.{Entry, Rule, Rules, match_rule}
use adv_cache.Model.Query.{filter_and_sort, key_headers}
use adv_cache.Sort.{Pair}
use adv_cache.Shard.{map_shard_key}

pub record Hasher : Type 0 where
  pub sum64 : Bytes → ℕ
  pub lo : Bytes → ℕ
  pub hi : Bytes → ℕ

-- buf.Write(pair[0]); buf.Write(pair[1])
unfoldable pub write_pairs : List Pair → Bytes
write_pairs [] = []
write_pairs (kv ∷ rest) = kv.0 ++ (kv.1 ++ write_pairs rest)

module _ (hasher : Hasher) where
  unfoldable pub calculate_and_set_up_keys : List Pair → List Pair → Entry → Entry
  calculate_and_set_up_keys queries headers e =
      let buf = write_pairs queries ++ write_pairs headers in
      record e {
        key = hasher.sum64 buf;
        fingerprint = put_u64 (hasher.lo buf) ++ put_u64 (hasher.hi buf);
        shard = map_shard_key (hasher.sum64 buf);
      }

  -- Init at the time `now` and the rule, then the keys; no rule, no entry.
  unfoldable pub entry_under : ℕ → List Pair → (Bytes → Bytes) → Option Rule → Option Entry
  entry_under now args peek none = none
  entry_under now args peek (some rule) = some (
      calculate_and_set_up_keys (filter_and_sort rule.query_bytes args)
        (key_headers peek rule.headers)
        record {
          key = 0;
          shard = 0;
          fingerprint = [];
          rule = rule;
          payload = none;
          lru_list_elem = none;
          refreshed_at = now;
        })

  -- NewEntry, for a request with a path, its query arguments and its headers.
  unfoldable pub new_entry : ℕ → Rules → Bytes → List Pair → (Bytes → Bytes) → Option Entry
  new_entry now rules path args peek = entry_under now args peek (match_rule rules path)
