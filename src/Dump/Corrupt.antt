-- ===== src/Dump/Corrupt.antt =====
-- What the loader makes of a file that is not as it was dumped (pkg/storage/lru/dumper.go).
use adv_cache.Prelude.{
  ℕ, suc, ◌+◌, ◌-◌, ◌^◌, ◌<◌, ◌≡◌, ◌≢◌, refl, ap, ◌∙◌, Bool, true, false, not, ◌&&◌, none, List, [],
  ◌∷◌, ◌++◌, All, arith, length, ◌==◌,
}
use adv_cache.Model.Binary.{Bytes, put_u32, u32}
use adv_cache.Model.Entry.{Entry, Rules}
use adv_cache.Model.ToBytes.{entry_from_bytes}
use adv_cache.Dump.{
  broken, next_frame, Loading, fail, go_on, Loaded, loaded, panicked, dump_entries, store,
  handle_frame, load_frames,
}
use adv_cache.Dump.Frames.{next_frame-frame, next_frame-short, next_frame-cut}
use adv_cache.Dump.RoundTrip.{
  Writable, set_all, after, after-loading, load_frames-dump_entries, load_frames-frame,
  load_frames-dump,
}

-- What a file that was cut off can end with: a part of a frame's header, or a whole header and a
-- part of the data.
pub data IsCut : Bytes → Type 0 where
  in_header : {xs : Bytes} → length xs < 8 → xs ≢ [] → IsCut xs
  in_data :
      {xs : Bytes} (ys : Bytes) (c n : ℕ)
      → c < 2 ^ 32
      → n < 2 ^ 32
      → length ys < n
      → xs ≡ put_u32 n ++ (put_u32 c ++ ys)
      → IsCut xs

next_frame-IsCut :
    (xs : Bytes) → IsCut xs → next_frame (record { bytes = xs; ends_in_eof = true }) ≡ broken
next_frame-IsCut xs (in_header short some_bytes) = next_frame-short xs short some_bytes
next_frame-IsCut xs (in_data ys c n hc hn short e) = rw e (next_frame-cut c n ys hc hn short)

entry_from_bytes-short :
    (rules : Rules) (bs : Bytes) → length bs < 4 → entry_from_bytes rules bs ≡ none
unfolding entry_from_bytes u32
entry_from_bytes-short rules [] h = refl
entry_from_bytes-short rules (_ ∷ []) h = refl
entry_from_bytes-short rules (_ ∷ _ ∷ []) h = refl
entry_from_bytes-short rules (_ ∷ _ ∷ _ ∷ []) h = refl
entry_from_bytes-short rules (_ ∷ _ ∷ _ ∷ _ ∷ bs) h = absurd (omega arith)

module _ (crc32 : Bytes → ℕ) (crc32_control : Bool) (done done_load : ℕ → Bool) {S : Type 0}
    (rules : Rules) (set : Entry → S → S) (crc32_bound : (bs : Bytes) → crc32 bs < 2 ^ 32)
    (running : (k : ℕ) → done k ≡ false) (running_load : (k : ℕ) → done_load k ≡ false) where
  abbrev load : ℕ → Bytes → Loading S → Loaded S
  load fuel bs l =
      load_frames crc32 crc32_control done_load rules set fuel
        (record { bytes = bs; ends_in_eof = true }) l

  load-IsCut : (n : ℕ) (xs : Bytes) (l : Loading S) → IsCut xs → load (suc n) xs l ≡ loaded (fail l)
  unfolding load_frames
  load-IsCut n xs l cut = rw (next_frame-IsCut xs cut, load_frames) refl

  -- A dump that was cut off within a frame: every frame before the cut is loaded, and one failure
  -- is counted.
  pub load_frames-IsCut :
      (fuel k : ℕ) (es : List Entry) (xs : Bytes) (l : Loading S)
      → length es < fuel
      → All (Writable rules) es
      → IsCut xs
      → load fuel (dump_entries crc32 crc32_control done k es ++ xs) l
        ≡ loaded (record {
          storage = set_all set es l.storage;
          success = l.success + length es;
          failures = l.failures + 1;
        })
  unfolding fail
  load_frames-IsCut fuel k es xs l enough w cut =
      load_frames-dump_entries crc32 crc32_control done done_load rules set crc32_bound running
        running_load fuel (suc (fuel - (length es + 1))) k es xs l (omega arith) w
      ∙ load-IsCut (fuel - (length es + 1)) xs _ cut
      ∙ ap (λ (t : Loading S). loaded (fail t))
          (after-loading crc32 crc32_control done done_load rules set crc32_bound running
            running_load es l)

  handle_frame-mismatch :
      (c : ℕ) (bs : Bytes) (l : Loading S)
      → crc32_control ≡ true
      → crc32 bs ≢ c
      → handle_frame crc32 crc32_control done_load rules set c bs l ≡ go_on (fail l)
  unfolding handle_frame
  handle_frame-mismatch c bs l on ne =
      let other : (crc32 bs == c) ≡ false = ground arith in rw (on, other) refl

  -- A dump in which the data of one frame does not have its checksum, under the control of the
  -- checksum: the frame is skipped and counted as one failure, and every other frame is loaded.
  pub load_frames-mismatch :
      (fuel k k' c : ℕ) (es es' : List Entry) (bs : Bytes) (l : Loading S)
      → crc32_control ≡ true
      → length es + length es' + 1 < fuel
      → All (Writable rules) es
      → All (Writable rules) es'
      → c < 2 ^ 32
      → length bs < 2 ^ 32
      → crc32 bs ≢ c
      → load fuel
          (dump_entries crc32 crc32_control done k es
            ++ (put_u32 (length bs)
                ++ (put_u32 c ++ (bs ++ dump_entries crc32 crc32_control done k' es'))))
          l
        ≡ loaded (record {
          storage = set_all set es' (set_all set es l.storage);
          success = l.success + length es + length es';
          failures = l.failures + 1;
        })
  unfolding fail
  load_frames-mismatch fuel k k' c es es' bs l on enough w w' hc hb ne =
      let rest = dump_entries crc32 crc32_control done k' es' in
      let n = fuel - (length es + 1) in
      let t = after crc32 crc32_control done done_load rules set crc32_bound running running_load in
      load_frames-dump_entries crc32 crc32_control done done_load rules set crc32_bound running
        running_load fuel (suc n) k es _ l (omega arith) w
      ∙ load_frames-frame crc32 crc32_control done done_load rules set crc32_bound running
          running_load n c bs _ (record { bytes = rest; ends_in_eof = true }) (t es l)
          (fail (t es l)) (next_frame-frame c bs rest true hc hb)
          (handle_frame-mismatch c bs (t es l) on ne)
      ∙ load_frames-dump crc32 crc32_control done done_load rules set crc32_bound running
          running_load n k' es' (fail (t es l)) (omega arith) w'
      ∙ ap
          (λ (u : Loading S). loaded (record u {
            storage = set_all set es' u.storage;
            success = u.success + length es';
            failures = u.failures + 1;
          }))
          (after-loading crc32 crc32_control done done_load rules set crc32_bound running
            running_load es l)

  -- A frame that passes the control of the checksum, or is not controlled, and whose data is shorter
  -- than four bytes makes the loader panic, whatever follows: the decoder slices out of range.
  pub load_frames-panics :
      (n c : ℕ) (bs rest : Bytes) (l : Loading S)
      → (crc32_control && not (crc32 bs == c)) ≡ false
      → c < 2 ^ 32
      → length bs < 4
      → load (suc n) (put_u32 (length bs) ++ (put_u32 c ++ (bs ++ rest))) l ≡ panicked
  unfolding load_frames handle_frame store
  load_frames-panics n c bs rest l passes hc short =
      rw (next_frame-frame c bs rest true hc (omega arith), load_frames)
        (rw passes (rw (entry_from_bytes-short rules bs short) refl))
