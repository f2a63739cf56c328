-- ===== src/Lfu/Admission.antt =====
-- Laws of the sketch, the doorkeeper and the admission (pkg/storage/lfu).
use adv_cache.Prelude.{
  ℕ, zero, suc, ◌+◌, ◌-◌, ◌≤◌, ◌<◌, ◌≡◌, refl, true, Bool-cases, inl, inr, arith, leb, ltb, ◌==◌,
  if◌then◌else◌,
}
use adv_cache.Prelude.Words.{u32_mod}
use adv_cache.Lfu.{
  CountMinSketch, index, bump, increment_sketch, least, estimate_sketch, Doorkeeper, allow, TinyLfu,
  increment, estimate, admit, sketch_depth,
}

==-refl : (a : ℕ) → (a == a) ≡ true
==-refl a = ground arith

-- The doorkeeper knows every key that it was asked for.
pub allow-allow : (key : ℕ) (d : Doorkeeper) → (allow key (allow key d).0).1 ≡ true
unfolding allow
allow-allow key d = ground arith

-- Right after a key has been counted, its admission against an old key is the comparison of the
-- two estimates, as for a key that the doorkeeper knows.
pub admit-increment :
    (key old : ℕ) (t : TinyLfu)
    → (admit key old (increment key t)).1
      ≡ leb (estimate (increment key t) old) (estimate (increment key t) key)
unfolding admit increment estimate
admit-increment key old t = rw (allow-allow key t.door)

ltb-suc : (a b : ℕ) → ltb (a + 1) (b + 1) ≡ ltb a b
ltb-suc a b = ground arith

lt→ltb : (a b : ℕ) → a < b → ltb a b ≡ true
lt→ltb a b h = ground arith

pick :
    (v : ℕ) → v < u32_mod - 1 → (if ltb (v + 1) (u32_mod - 1) then v + 1 else u32_mod - 1) ≡ v + 1
pick v h = ground arith

-- No counter of the key is about to wrap.
abbrev pub NotFull : CountMinSketch → ℕ → Type 0
NotFull c key = (i : ℕ) → i < sketch_depth → c.table i (index c i key) < u32_mod - 1

bump_self :
    (c : CountMinSketch) (key i : ℕ)
    → i < sketch_depth
    → NotFull c key
    → bump c key i (index c i key) ≡ c.table i (index c i key) + 1
bump_self c key i h f = rw (lt→ltb i sketch_depth h, ==-refl (index c i key)) (omega (arith, f i h))

least-increment :
    (n i mins : ℕ) (c : CountMinSketch) (key : ℕ)
    → n + i ≤ sketch_depth
    → NotFull c key
    → least n i (mins + 1) (increment_sketch key c) key ≡ least n i mins c key + 1
unfolding least increment_sketch
least-increment zero i mins c key h f = refl
least-increment (suc n) i mins c key h f =
    rw (bump_self c key i (omega arith) f)
      (elim (Bool-cases (ltb (c.table i (index c i key)) mins)) [
        | inl less ↦
            rw (less, ltb-suc (c.table i (index c i key)) mins)
              (rw less
                (least-increment n (suc i) (c.table i (index c i key)) c key (omega arith) f))
        | inr more ↦
            rw (more, ltb-suc (c.table i (index c i key)) mins)
              (rw more (least-increment n (suc i) mins c key (omega arith) f))
      ])

-- The first row is below the value that the loop starts from.
least-first :
    (n : ℕ) (c : CountMinSketch) (key : ℕ)
    → suc n ≤ sketch_depth
    → NotFull c key
    → least (suc n) 0 (u32_mod - 1) (increment_sketch key c) key
      ≡ least (suc n) 0 (u32_mod - 1) c key + 1
unfolding least increment_sketch
least-first n c key h f =
    let cell = c.table 0 (index c 0 key) in
    rw (bump_self c key 0 (omega arith) f) (
      rw (lt→ltb cell (u32_mod - 1) (f 0 (omega arith)), pick cell (f 0 (omega arith)))
        (least-increment n 1 cell c key (omega arith) f))

-- Counting a key adds one to its estimate, if none of its counters is at its last value.
pub estimate_sketch-increment_sketch :
    (key : ℕ) (c : CountMinSketch)
    → NotFull c key
    → estimate_sketch (increment_sketch key c) key ≡ estimate_sketch c key + 1
unfolding estimate_sketch
estimate_sketch-increment_sketch key c f = least-first 3 c key (omega arith) f
