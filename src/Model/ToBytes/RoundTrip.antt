-- ===== src/Model/ToBytes/RoundTrip.antt =====
-- Decoding what `ToBytes` wrote (pkg/model/to_bytes.go).
use adv_cache.Prelude.{◌^◌, ◌<◌, ◌≡◌, none, some, ◌++◌, length}
use mathlib.Core.List.{append_assoc}
use adv_cache.Model.Binary.{
  Bytes, take_bytes-append, take_bytes_of_length, u32-put_u32, u64-put_u64,
}
use adv_cache.Model.Entry.{Entry, Rules, match_rule, payload_bytes, new_entry_from_field}
use adv_cache.Model.ToBytes.{to_bytes, entry, fields_from_bytes, entry_from_bytes, with_rule}

-- The widths of the fields.
pub record Fits (e : Entry) : Type 0 where
  pub path : length e.rule.path_bytes < 2 ^ 32
  pub key : e.key < 2 ^ 64
  pub shard : e.shard < 2 ^ 64
  pub fingerprint : length e.fingerprint ≡ 16
  pub refreshed_at : e.refreshed_at < 2 ^ 64
  pub payload : length (payload_bytes e) < 2 ^ 32

-- Of an entry whose fields have their widths, and whose rule is the one configured for its path,
-- the dump decodes to the same entry, outside of any LRU list, whatever follows the dump.
pub entry_from_bytes-to_bytes :
    (rules : Rules) (e : Entry) (rest : Bytes)
    → Fits e
    → match_rule rules e.rule.path_bytes ≡ some e.rule
    → entry_from_bytes rules (to_bytes e ++ rest)
      ≡ some (entry (record e { payload = some (payload_bytes e); lru_list_elem = none }))
unfolding to_bytes entry_from_bytes fields_from_bytes new_entry_from_field
entry_from_bytes-to_bytes rules e rest f known = simp append_assoc (
    rw (u32-put_u32 (length e.rule.path_bytes) _ f.path) (
      rw (take_bytes-append e.rule.path_bytes _) (
        rw (known, with_rule)
          (rw (u64-put_u64 e.key _ f.key) (
            rw (u64-put_u64 e.shard _ f.shard) (
              rw (take_bytes_of_length 16 e.fingerprint _ f.fingerprint) (
                rw (u64-put_u64 e.refreshed_at _ f.refreshed_at) (
                  rw (u32-put_u32 (length (payload_bytes e)) _ f.payload)
                    (rw (take_bytes-append (payload_bytes e) rest))))))))))
