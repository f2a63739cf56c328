-- ===== src/Model/Binary.antt =====
-- Little-endian numbers and runs of bytes, as encoding/binary and slicing give them. A byte is a
-- number below 256. A reader takes the bytes from the offset on; `none` is the panic of a slice
-- that is too short.
use mathlib.Core.List.{append_assoc}
use adv_cache.Prelude.{
  ℕ, zero, suc, ◌+◌, ◌*◌, ◌/◌, ◌%◌, ◌^◌, ◌<◌, ◌≡◌, refl, ap, Option, none, some, List, [], ◌∷◌,
  ◌++◌, arith, length,
}

abbrev pub Bytes : Type 0
Bytes = List ℕ

abbrev pub Reader : Type 0 → Type 0
Reader A = Bytes → Option (A × Bytes)

infixl 5 ◌>>=◌
abbrev pub ◌>>=◌ {ℓ κ} : {A : Type ℓ} {B : Type κ} → Option A → (A → Option B) → Option B
none >>= f = none
some a >>= f = f a

-- binary.LittleEndian.PutUint32 of uint32(n)
unfoldable pub put_u32 : ℕ → Bytes
put_u32 n = n % 256 ∷ n / 256 % 256 ∷ n / 65536 % 256 ∷ n / 16777216 % 256 ∷ []

unfoldable pub put_u64 : ℕ → Bytes
put_u64 n = put_u32 (n % 2 ^ 32) ++ put_u32 (n / 2 ^ 32)

-- binary.LittleEndian.Uint32
unfoldable pub u32 : Reader ℕ
u32 (a ∷ b ∷ c ∷ d ∷ rest) = some (a + 256 * b + 65536 * c + 16777216 * d, rest)
u32 _ = none

unfoldable pub u64 : Reader ℕ
u64 bs = do (lo, rest) ← u32 bs; (hi, rest') ← u32 rest; some (lo + 2 ^ 32 * hi, rest')

-- bs[offset : offset+n], and offset += n
unfoldable pub take_bytes : ℕ → Reader Bytes
take_bytes zero bs = some ([], bs)
take_bytes (suc n) [] = none
take_bytes (suc n) (b ∷ bs) = do (xs, rest) ← take_bytes n bs; some (b ∷ xs, rest)

pub take_bytes-append : (xs rest : Bytes) → take_bytes (length xs) (xs ++ rest) ≡ some (xs, rest)
unfolding take_bytes
take_bytes-append [] rest = refl
take_bytes-append (x ∷ xs) rest = rw (take_bytes-append xs rest)

pub take_bytes_of_length :
    (n : ℕ) (xs rest : Bytes) → length xs ≡ n → take_bytes n (xs ++ rest) ≡ some (xs, rest)
take_bytes_of_length n xs rest h = rw (← h) (take_bytes-append xs rest)

u32_value :
    (n : ℕ)
    → n < 2 ^ 32
    → n % 256 + 256 * (n / 256 % 256) + 65536 * (n / 65536 % 256) + 16777216 * (n / 16777216 % 256)
      ≡ n
u32_value n h = omega arith

pub u32-put_u32 : (n : ℕ) (rest : Bytes) → n < 2 ^ 32 → u32 (put_u32 n ++ rest) ≡ some (n, rest)
unfolding u32 put_u32
u32-put_u32 n rest h = rw (u32_value n h)

pub u64-put_u64 : (n : ℕ) (rest : Bytes) → n < 2 ^ 64 → u64 (put_u64 n ++ rest) ≡ some (n, rest)
unfolding u64 put_u64
u64-put_u64 n rest h = rw append_assoc (
    rw (u32-put_u32 (n % 2 ^ 32) (put_u32 (n / 2 ^ 32) ++ rest) (omega arith)) (
      rw (u32-put_u32 (n / 2 ^ 32) rest (omega arith))
        (ap (λ (v : ℕ). some (v, rest)) (omega arith))))
