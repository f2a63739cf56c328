-- ===== src/Model/Equal.antt =====
-- That the comparison of bytes (pkg/model/entry.go) decides their equality.
use adv_cache.Prelude.{◌≡◌, refl, true, [], ◌∷◌, arith}
use adv_cache.Model.Binary.{Bytes}
use adv_cache.Model.Entry.{bytes_equal}

pub bytes_equal→eq : (a b : Bytes) → bytes_equal a b ≡ true → a ≡ b
unfolding bytes_equal
bytes_equal→eq [] [] h = refl
bytes_equal→eq [] (y ∷ b) h = cc
bytes_equal→eq (x ∷ a) [] h = cc
bytes_equal→eq (x ∷ a) (y ∷ b) h = ground (arith, bytes_equal→eq a b)

pub bytes_equal_refl : (a : Bytes) → bytes_equal a a ≡ true
unfolding bytes_equal
bytes_equal_refl [] = refl
bytes_equal_refl (x ∷ a) = ground (arith, bytes_equal_refl a)
