-- ===== src/Dump.antt =====
-- The dump of the storage (pkg/storage/lru/dumper.go): the frames of a file, one for each entry, and
-- the loop that loads them. The checksum (hash/crc32) and the storage, an interface in the code, are
-- parameters. A file is the bytes that its reader delivers, and whether it then ends in io.EOF or in
-- another error; a gzip reader is such a reader too. Writes succeed. `done k` is whether the context
-- is done at the check after `k` entries. Each file is loaded alone.
pub mod Frames
pub mod RoundTrip
pub mod Corrupt
pub mod Restored
pub mod Files
pub mod Versions
use adv_cache.Prelude.{
  ℕ, zero, suc, ◌+◌, Bool, true, false, not, ◌&&◌, Option, none, some, List, [], ◌∷◌, ◌++◌, map,
  ◌==◌, if◌then◌else◌, length,
}
use adv_cache.Model.Binary.{Bytes, put_u32, u32, take_bytes}
use adv_cache.Model.Entry.{Entry, Rules}
use adv_cache.Model.ToBytes.{Decoded, entry, rule_not_found, to_bytes, entry_from_bytes}
use adv_cache.Storage.{Storage}
use adv_cache.Shard.{Items}

-- What the rest of a file delivers.
pub record Stream : Type 0 where
  pub bytes : Bytes
  pub ends_in_eof : Bool

-- io.ReadFull: all bytes, io.EOF if there is none, or another error.
pub data Read : Type 0 where
  full : Bytes → Stream → Read
  eof failed : Read

unfoldable pub read_full : ℕ → Stream → Read
read_full n st = elim (take_bytes n st.bytes) [
  | some (xs, rest) ↦ full xs (record st { bytes = rest })
  | none ↦ if length st.bytes == 0 && st.ends_in_eof then eof else failed
]

-- The next frame: its checksum and its bytes; or the end of the file, or an error.
pub data Next : Type 0 where
  frame : ℕ → Bytes → Stream → Next
  last broken : Next

unfoldable pub read_data : ℕ → Read → Next
read_data crc (full buf st) = frame crc buf st
read_data crc eof = broken
read_data crc failed = broken

-- binary.LittleEndian.Uint32 of both halves of the eight bytes
unfoldable pub read_sized : Bytes → Stream → Next
read_sized meta st = elim (u32 meta) [
  | none ↦ broken
  | some (sz, meta') ↦ elim (u32 meta') [
    | none ↦ broken
    | some (crc, _) ↦ read_data crc (read_full sz st)
  ]
]

unfoldable pub next_frame : Stream → Next
next_frame st = elim (read_full 8 st) [
  | full meta rest ↦ read_sized meta rest
  | eof ↦ last
  | failed ↦ broken
]

-- The storage as the loader uses it, and the counters.
pub record Loading (S : Type 0) : Type 0 where
  pub storage : S
  pub success : ℕ
  pub failures : ℕ

-- Go on, return from the file, or panic.
pub data Handled (S : Type 0) : Type 0 where
  go_on stop : Loading S → Handled S
  panics : Handled S

-- How the loading of a file ends; `unfinished` is a loop that has not ended.
pub data Loaded (S : Type 0) : Type 0 where
  loaded : Loading S → Loaded S
  panicked unfinished : Loaded S

module _ {S : Type 0} where
  unfoldable pub fail : Loading S → Loading S
  fail l = record l { failures = l.failures + 1 }

module _ (crc32 : Bytes → ℕ) (crc32_control : Bool) (done : ℕ → Bool) where
  -- The header of a frame, and the data.
  unfoldable pub put_frame : Bytes → Bytes
  put_frame bs = put_u32 (length bs) ++ (put_u32 (if crc32_control then crc32 bs else 0) ++ bs)

  -- The walk over a shard: it stops when the context is done.
  unfoldable pub dump_entries : ℕ → List Entry → Bytes
  dump_entries k [] = []
  dump_entries k (e ∷ es) =
      let rest = dump_entries (k + 1) es in if done k then [] else put_frame (to_bytes e) ++ rest

  unfoldable pub dump_shard : ℕ → Storage → Bytes
  dump_shard i s = dump_entries 0 (map (λ (x : ℕ × ℕ). s.entries x.1) (s.shards i).items)

  module _ {S : Type 0} (rules : Rules) (set : Entry → S → S) where
    unfoldable pub store : Option Decoded → Loading S → Handled S
    store none l = panics
    store (some (rule_not_found path)) l = go_on (fail l)
    store (some (entry e)) l =
        let t = record l { storage = set e l.storage; success = l.success + 1 } in
        if done t.success then stop t else go_on t

    unfoldable pub handle_frame : ℕ → Bytes → Loading S → Handled S
    handle_frame crc buf l =
        if crc32_control && not (crc32 buf == crc)
        then go_on (fail l)
        else store (entry_from_bytes rules buf) l

    -- The loop over the frames of a file.
    unfoldable pub load_frames : ℕ → Stream → Loading S → Loaded S
    load_frames zero st l = unfinished
    load_frames (suc n) st l = elim (next_frame st) [
      | last ↦ loaded l
      | broken ↦ loaded (fail l)
      | frame crc buf rest ↦ elim (handle_frame crc buf l) [
        | go_on t ↦ load_frames n rest t
        | stop t ↦ loaded t
        | panics ↦ panicked
      ]
    ]
