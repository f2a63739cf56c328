-- ===== src/Dump/RoundTrip.antt =====
-- Loading what was dumped (pkg/storage/lru/dumper.go).
use mathlib.Core.List.{append_assoc, append-nil}
use adv_cache.Prelude.{
  ℕ, zero, suc, ◌+◌, ◌-◌, ◌^◌, ◌<◌, ◌≡◌, refl, ap, ◌∙◌, Bool, true, false, Bool-cases, inl, inr,
  none, some, List, [], ◌∷◌, ◌++◌, All, arith, length, ◌==◌, if◌then◌else◌,
}
use adv_cache.Model.Binary.{Bytes, put_u32}
use adv_cache.Model.Entry.{Entry, Rules, match_rule, payload_bytes}
use adv_cache.Model.ToBytes.{entry, to_bytes, entry_from_bytes}
use adv_cache.Model.ToBytes.RoundTrip.{Fits, entry_from_bytes-to_bytes}
use adv_cache.Dump.{
  Stream, frame, next_frame, Loading, go_on, loaded, put_frame, dump_entries, store, handle_frame,
  load_frames,
}
use adv_cache.Dump.Frames.{next_frame-frame, next_frame-last}

-- An entry that a dump can hold.
pub record Writable (rules : Rules) (e : Entry) : Type 0 where
  pub fits : Fits e
  pub known : match_rule rules e.rule.path_bytes ≡ some e.rule
  pub small : length (to_bytes e) < 2 ^ 32

-- The entry as it is loaded: it has a payload and is in no list.
abbrev pub restored : Entry → Entry
restored e = record e { payload = some (payload_bytes e); lru_list_elem = none }

abbrev pub set_all : {S : Type 0} → (Entry → S → S) → List Entry → S → S
set_all set [] s = s
set_all set (e ∷ es) s = set_all set es (set (restored e) s)

==-refl : (a : ℕ) → (a == a) ≡ true
==-refl a = ground arith

decoded :
    (rules : Rules) (e : Entry)
    → Writable rules e
    → entry_from_bytes rules (to_bytes e) ≡ some (entry (restored e))
decoded rules e w =
    rw (append-nil (to_bytes e)) at (entry_from_bytes-to_bytes rules e [] w.fits w.known)

module _ (crc32 : Bytes → ℕ) (crc32_control : Bool) (done done_load : ℕ → Bool) {S : Type 0}
    (rules : Rules) (set : Entry → S → S) (crc32_bound : (bs : Bytes) → crc32 bs < 2 ^ 32)
    (running : (k : ℕ) → done k ≡ false) (running_load : (k : ℕ) → done_load k ≡ false) where
  abbrev set_one : Entry → Loading S → Loading S
  set_one e l = record l { storage = set (restored e) l.storage; success = l.success + 1 }

  handle_frame-to_bytes :
      (e : Entry) (l : Loading S)
      → Writable rules e
      → handle_frame crc32 crc32_control done_load rules set
          (if crc32_control then crc32 (to_bytes e) else 0)
          (to_bytes e)
          l
        ≡ go_on (set_one e l)
  unfolding handle_frame
  handle_frame-to_bytes e l w = elim (Bool-cases crc32_control) [
    | inl checked ↦
        rw (checked, ==-refl (crc32 (to_bytes e)))
          (rw (decoded rules e w) (unfold store in (rw (running_load (l.success + 1)) refl)))
    | inr unchecked ↦
        rw unchecked
          (rw (decoded rules e w) (unfold store in (rw (running_load (l.success + 1)) refl)))
  ]

  crc-bound : (bs : Bytes) → (if crc32_control then crc32 bs else 0) < 2 ^ 32
  crc-bound bs = elim (Bool-cases crc32_control) [
    | inl checked ↦ rw checked (crc32_bound bs)
    | inr unchecked ↦ rw unchecked (omega arith)
  ]

  pub load_frames-frame :
      (n c : ℕ) (bs : Bytes) (st rest : Stream) (l t : Loading S)
      → next_frame st ≡ frame c bs rest
      → handle_frame crc32 crc32_control done_load rules set c bs l ≡ go_on t
      → load_frames crc32 crc32_control done_load rules set (suc n) st l
        ≡ load_frames crc32 crc32_control done_load rules set n rest t
  unfolding load_frames
  load_frames-frame n c bs st rest l t f h = rw (f, load_frames) (rw (h, load_frames) refl)

  put_frame-append :
      (bs rest : Bytes)
      → put_frame crc32 crc32_control done bs ++ rest
        ≡ put_u32 (length bs) ++ (put_u32 (if crc32_control then crc32 bs else 0) ++ (bs ++ rest))
  unfolding put_frame
  put_frame-append bs rest = simp append_assoc

  load_frames-put_frame :
      (n : ℕ) (e : Entry) (rest : Bytes) (l : Loading S)
      → Writable rules e
      → load_frames crc32 crc32_control done_load rules set
          (suc n)
          (record {
            bytes = put_frame crc32 crc32_control done (to_bytes e) ++ rest;
            ends_in_eof = true;
          })
          l
        ≡ load_frames crc32 crc32_control done_load rules set n
            (record { bytes = rest; ends_in_eof = true })
            (set_one e l)
  load_frames-put_frame n e rest l w =
      let bs = to_bytes e in
      rw (put_frame-append bs rest) (
        load_frames-frame n _ bs _ (record { bytes = rest; ends_in_eof = true }) l (set_one e l)
          (next_frame-frame (if crc32_control then crc32 bs else 0) bs rest true (crc-bound bs)
            w.small)
          (handle_frame-to_bytes e l w))

  abbrev pub after : List Entry → Loading S → Loading S
  after [] l = l
  after (e ∷ es) l = after es (set_one e l)

  -- The frames of entries that can be written are loaded, whatever follows them.
  pub load_frames-dump_entries :
      (n m k : ℕ) (es : List Entry) (rest : Bytes) (l : Loading S)
      → n ≡ length es + m
      → All (Writable rules) es
      → load_frames crc32 crc32_control done_load rules set n
          (record {
            bytes = dump_entries crc32 crc32_control done k es ++ rest;
            ends_in_eof = true;
          })
          l
        ≡ load_frames crc32 crc32_control done_load rules set m
            (record { bytes = rest; ends_in_eof = true })
            (after es l)
  unfolding dump_entries
  load_frames-dump_entries n m k [] rest l e w = let q : n ≡ m = omega arith in rw q refl
  load_frames-dump_entries zero m k (x ∷ es) rest l e w = absurd (omega arith)
  load_frames-dump_entries (suc n) m k (x ∷ es) rest l e w = rw (running k) (
      rw append_assoc (
        load_frames-put_frame n x (dump_entries crc32 crc32_control done (k + 1) es ++ rest) l w.0
        ∙ load_frames-dump_entries n m (k + 1) es rest (set_one x l) (omega arith) w.1))

  pub after-loading :
      (es : List Entry) (l : Loading S)
      → after es l
        ≡ record l { storage = set_all set es l.storage; success = l.success + length es }
  after-loading [] l = λ i. record l { success = zero-right l.success i }
    where
      zero-right : (n : ℕ) → n ≡ n + 0
      zero-right n = omega arith
  after-loading (e ∷ es) l = after-loading es (set_one e l) ∙ (λ i. record l {
    storage = set_all set (e ∷ es) l.storage;
    success = one-more l.success (length es) i;
  })
    where
      one-more : (n m : ℕ) → n + 1 + m ≡ n + suc m
      one-more n m = omega arith

  load_frames-end :
      (n : ℕ) (l : Loading S)
      → load_frames crc32 crc32_control done_load rules set
          (suc n)
          (record { bytes = []; ends_in_eof = true })
          l
        ≡ loaded l
  unfolding load_frames
  load_frames-end n l = rw (next_frame-last, load_frames) refl

  -- A file that the dump of a shard wrote, loaded back with the same checksum setting while no
  -- context is done: the loop ends, each entry of the dump is set in the storage, in the order of
  -- the dump, with its payload and outside of any list, and is counted; no failure is counted.
  -- The entries have their widths, and their rules are configured.
  pub load_frames-dump :
      (fuel k : ℕ) (es : List Entry) (l : Loading S)
      → length es < fuel
      → All (Writable rules) es
      → load_frames crc32 crc32_control done_load rules set fuel
          (record { bytes = dump_entries crc32 crc32_control done k es; ends_in_eof = true })
          l
        ≡ loaded (record l { storage = set_all set es l.storage; success = l.success + length es })
  load_frames-dump fuel k es l enough w =
      let m = fuel - (length es + 1) in
      let all = dump_entries crc32 crc32_control done k es in
      rw (append-nil all) at (load_frames-dump_entries fuel (suc m) k es [] l (omega arith) w)
      ∙ load_frames-end m (after es l)
      ∙ ap loaded (after-loading es l)
