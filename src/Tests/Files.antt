-- ===== src/Tests/Files.antt =====
-- The files and the directories of dumps at concrete inputs; a number is printed as one digit.
use adv_cache.Prelude.{ℕ, ◌+◌, ◌-◌, ◌≡◌, ap, refl, false, true, List, [], ◌∷◌, ◌++◌, map, arith}
use adv_cache.Prelude.Int.{ℤ, pos}
use adv_cache.Model.Binary.{Bytes}
use adv_cache.Dump.Files.{to_load, dump_file, temporary_file, contains}
use adv_cache.Dump.Files.Selected.{IsPart, to_load-dump_file}
use adv_cache.Dump.Files.Leftover.{to_load-temporary_file}
use adv_cache.Dump.Versions.{VersionDir}

abbrev digit : ℕ → Bytes
digit n = (b'0' + n) ∷ []

digit-IsPart : (n : ℕ) → IsPart (digit n)
digit-IsPart n = (omega arith, tt)

abbrev stamp : Bytes
stamp = b'2' ∷ b'T' ∷ b'3' ∷ []

abbrev name : Bytes
name = b'a' ∷ b'-' ∷ b'b' ∷ []

to_load-dump_file_example :
    to_load (map (dump_file digit (b'd' ∷ []) name stamp true) (1 ∷ 7 ∷ []))
    ≡ map (dump_file digit (b'd' ∷ []) name stamp true) (1 ∷ 7 ∷ [])
to_load-dump_file_example =
    to_load-dump_file digit digit-IsPart (b'd' ∷ []) name stamp true (1 ∷ 7 ∷ [])
      (omega arith, (omega arith, (omega arith, tt)))

to_load-temporary_file_example :
    to_load (
      map (dump_file digit (b'd' ∷ []) name stamp false) (1 ∷ [])
      ++ (temporary_file digit (b'd' ∷ []) name stamp false 5
          ∷ map (dump_file digit (b'd' ∷ []) name stamp false) (7 ∷ [])))
    ≡ temporary_file digit (b'd' ∷ []) name stamp false 5 ∷ []
unfolding contains dump_file
to_load-temporary_file_example =
    to_load-temporary_file digit digit-IsPart (b'd' ∷ []) name stamp false (1 ∷ []) 5 (7 ∷ [])
      (omega arith, (omega arith, (omega arith, tt))) (refl, tt) (refl, tt)

abbrev read : Bytes → ℤ
read [] = pos 0
read (v ∷ []) = pos 0
read (v ∷ d ∷ rest) = pos (d - b'0')

read-digit : (n : ℕ) → read (b'v' ∷ digit n) ≡ pos n
read-digit n = ap pos (omega arith)

abbrev found_names : List Bytes
found_names = (b'v' ∷ b'4' ∷ []) ∷ (b'v' ∷ b'2' ∷ []) ∷ []

abbrev version : ℕ → ℕ → VersionDir
version n t = record { name = b'v' ∷ digit n; mod_time = t }
