-- ===== src/Model/ToBytes.antt =====
-- The dump format of an entry (pkg/model/to_bytes.go).
pub mod RoundTrip
use adv_cache.Prelude.{ℕ, ◌+◌, ◌%◌, ◌^◌, Option, none, some, List, [], ◌∷◌, ◌++◌, length}
use adv_cache.Model.Binary.{Bytes, ◌>>=◌, put_u32, put_u64, u32, u64, take_bytes}
use adv_cache.Model.Entry.{Entry, Rule, Rules, match_rule, payload_bytes, new_entry_from_field}

unfoldable pub to_bytes : Entry → Bytes
to_bytes e =
    put_u32 (length e.rule.path_bytes)
    ++ (e.rule.path_bytes
        ++ (put_u64 e.key
            ++ (put_u64 e.shard
                ++ (e.fingerprint
                    ++ (put_u64 e.refreshed_at
                        ++ (put_u32 (length (payload_bytes e)) ++ payload_bytes e))))))

-- What `EntryFromBytes` returns, if it does not panic.
pub data Decoded : Type 0 where
  entry : Entry → Decoded
  rule_not_found : Bytes → Decoded

unfoldable pub fields_from_bytes : Rule → Bytes → Option Decoded
fields_from_bytes rule bs = do
  (key, bs1) ← u64 bs
  (shard, bs2) ← u64 bs1
  (fp, bs3) ← take_bytes 16 bs2
  (updated_at, bs4) ← u64 bs3
  (payload_len, bs5) ← u32 bs4
  (payload, _) ← take_bytes payload_len bs5
  some (entry (new_entry_from_field key shard fp payload rule updated_at))

-- The answer of `MatchRule` decides how the decoding goes on.
unfoldable pub with_rule : Option Rule → Bytes → Bytes → Option Decoded
with_rule none path bs = some (rule_not_found path)
with_rule (some rule) path bs = fields_from_bytes rule bs

unfoldable pub entry_from_bytes : Rules → Bytes → Option Decoded
unfolding with_rule
entry_from_bytes rules bs = do
  (rule_path_len, bs1) ← u32 bs
  (rule_path, bs2) ← take_bytes rule_path_len bs1
  with_rule (match_rule rules rule_path) rule_path bs2
