-- ===== src/Dump/Frames.antt =====
-- Reading back one frame of a dump file (pkg/storage/lru/dumper.go).
use mathlib.Core.List.{append_assoc, append-nil}
use adv_cache.Prelude.{
  ℕ, zero, suc, ◌^◌, ◌<◌, ◌≡◌, ◌≢◌, refl, Bool, true, false, ◌&&◌, none, some, [], ◌∷◌, ◌++◌, arith,
  length, ◌==◌, if◌then◌else◌,
}
use adv_cache.Model.Binary.{Bytes, put_u32, u32, take_bytes, take_bytes_of_length, u32-put_u32}
use adv_cache.Dump.{
  read_full, full, eof, failed, frame, last, broken, read_data, read_sized, next_frame,
}

pub take_bytes-short : (n : ℕ) (xs : Bytes) → length xs < n → take_bytes n xs ≡ none
unfolding take_bytes
take_bytes-short zero xs h = absurd (omega arith)
take_bytes-short (suc n) [] h = refl
take_bytes-short (suc n) (x ∷ xs) h = rw (take_bytes-short n xs (omega arith))

read_full-append :
    (n : ℕ) (xs rest : Bytes) (at_end : Bool)
    → length xs ≡ n
    → read_full n (record { bytes = xs ++ rest; ends_in_eof = at_end })
      ≡ full xs (record { bytes = rest; ends_in_eof = at_end })
unfolding read_full
read_full-append n xs rest at_end h = rw (take_bytes_of_length n xs rest h, read_full) refl

u32-last : (n : ℕ) → n < 2 ^ 32 → u32 (put_u32 n) ≡ some (n, [])
u32-last n h = rw (append-nil (put_u32 n)) at (u32-put_u32 n [] h)

length-meta : (a c : ℕ) → length (put_u32 a ++ put_u32 c) ≡ 8
unfolding put_u32
length-meta a c = refl

-- A whole frame, with any checksum.
pub next_frame-frame :
    (c : ℕ) (bs rest : Bytes) (at_end : Bool)
    → c < 2 ^ 32
    → length bs < 2 ^ 32
    → next_frame (record {
      bytes = put_u32 (length bs) ++ (put_u32 c ++ (bs ++ rest));
      ends_in_eof = at_end;
    })
      ≡ frame c bs (record { bytes = rest; ends_in_eof = at_end })
unfolding next_frame read_sized
next_frame-frame c bs rest at_end hc hb =
    rw (← append_assoc (put_u32 (length bs)) (put_u32 c) (bs ++ rest)) (
      rw
        (
          read_full-append 8 (put_u32 (length bs) ++ put_u32 c) (bs ++ rest) at_end
              (length-meta (length bs) c),
          next_frame,
        )
        (rw (u32-put_u32 (length bs) (put_u32 c) hb, read_sized)
          (rw (u32-last c hc)
            (rw (read_full-append (length bs) bs rest at_end refl) (unfold read_data in refl)))))

-- The end of a file.
pub next_frame-last : next_frame (record { bytes = []; ends_in_eof = true }) ≡ last
unfolding next_frame read_full take_bytes
next_frame-last = refl

suc-nonzero : (n : ℕ) → (suc n == 0) ≡ false
suc-nonzero n = ground arith

pub read_full-short :
    (n : ℕ) (xs : Bytes)
    → length xs < n
    → xs ≢ []
    → read_full n (record { bytes = xs; ends_in_eof = true }) ≡ failed
unfolding read_full
read_full-short n [] h ne = absurd (ne refl)
read_full-short n (x ∷ xs) h ne =
    rw (take_bytes-short n (x ∷ xs) h, read_full) (rw (suc-nonzero (length xs)) refl)

-- A file that ends inside the header of a frame, or inside its data.
pub next_frame-short :
    (xs : Bytes)
    → length xs < 8
    → xs ≢ []
    → next_frame (record { bytes = xs; ends_in_eof = true }) ≡ broken
unfolding next_frame
next_frame-short xs h ne = rw (read_full-short 8 xs h ne, next_frame) refl

read_data-ended : (crc : ℕ) (b : Bool) → read_data crc (if b then eof else failed) ≡ broken
unfolding read_data
read_data-ended crc true = refl
read_data-ended crc false = refl

read_data-short :
    (crc n : ℕ) (xs : Bytes)
    → length xs < n
    → read_data crc (read_full n (record { bytes = xs; ends_in_eof = true })) ≡ broken
unfolding read_full
read_data-short crc n xs h =
    rw (take_bytes-short n xs h, read_full) (read_data-ended crc (length xs == 0 && true))

pub next_frame-cut :
    (c n : ℕ) (xs : Bytes)
    → c < 2 ^ 32
    → n < 2 ^ 32
    → length xs < n
    → next_frame (record { bytes = put_u32 n ++ (put_u32 c ++ xs); ends_in_eof = true }) ≡ broken
unfolding next_frame read_sized
next_frame-cut c n xs hc hn h = rw (← append_assoc (put_u32 n) (put_u32 c) xs) (
    rw (read_full-append 8 (put_u32 n ++ put_u32 c) xs true (length-meta n c), next_frame)
      (rw (u32-put_u32 n (put_u32 c) hn, read_sized)
        (rw (u32-last c hc) (read_data-short c n xs h))))
