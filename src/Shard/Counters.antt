-- ===== src/Shard/Counters.antt =====
-- A shard's map laws, and its counters against the items that it holds
-- (pkg/storage/map/shard.go).
use adv_cache.Prelude.{
  ℕ, ◌+◌, ◌%◌, ◌≡◌, ◌≢◌, refl, none, some, [], ◌∷◌, arith, ◌==◌, if◌then◌else◌, Option-cases, inl,
  inr, Bool-cases, length,
}
use adv_cache.Prelude.Words.{u64_mod, add64, sub64}
use adv_cache.Shard.{Items, lookup, insert, delete, Shard, count_set, set, remove_found, remove}

pub lookup-insert :
    (k j p : ℕ) (m : Items) → lookup j (insert k p m) ≡ (if k == j then some p else lookup j m)
unfolding lookup insert
lookup-insert k j p [] = refl
lookup-insert k j p ((i, q) ∷ m) = ground (arith, lookup-insert k j p m)

-- A key stands once.
abbrev pub Absent : ℕ → Items → Type 0
Absent k [] = Unit
Absent k ((j, q) ∷ m) = (j ≢ k) × Absent k m

abbrev pub Keys : Items → Type 0
Keys [] = Unit
Keys ((j, q) ∷ m) = Absent j m × Keys m

pub lookup-Absent : (k : ℕ) (m : Items) → Absent k m → lookup k m ≡ none
unfolding lookup
lookup-Absent k [] h = refl
lookup-Absent k ((j, q) ∷ m) h = ground (arith, lookup-Absent k m h.1)

pub lookup-delete : (k : ℕ) (m : Items) → Keys m → lookup k (delete k m) ≡ none
unfolding lookup delete
lookup-delete k [] h = refl
lookup-delete k ((j, q) ∷ m) h = elim (Bool-cases (j == k)) [
  | inl here ↦ let e : j ≡ k = ground arith in rw (here) (lookup-Absent k m (rw e at (h.0)))
  | inr there ↦ rw there (rw there (lookup-delete k m h.1))
]

pub lookup-delete_ne : (k j : ℕ) (m : Items) → k ≢ j → lookup j (delete k m) ≡ lookup j m
unfolding lookup delete
lookup-delete_ne k j [] h = refl
lookup-delete_ne k j ((i, q) ∷ m) h = ground (arith, lookup-delete_ne k j m h)

Absent-insert : (i k p : ℕ) (m : Items) → k ≢ i → Absent i m → Absent i (insert k p m)
unfolding insert
Absent-insert i k p [] h a = (h, tt)
Absent-insert i k p ((j, q) ∷ m) h a = ground (arith, Absent-insert i k p m h a.1)

Absent-delete : (i k : ℕ) (m : Items) → Absent i m → Absent i (delete k m)
unfolding delete
Absent-delete i k [] a = tt
Absent-delete i k ((j, q) ∷ m) a = ground (arith, Absent-delete i k m a.1)

pub Keys-insert : (k p : ℕ) (m : Items) → Keys m → Keys (insert k p m)
unfolding insert
Keys-insert k p [] h = (tt, tt)
Keys-insert k p ((j, q) ∷ m) h = elim (Bool-cases (j == k)) [
  | inl here ↦ let e : j ≡ k = ground arith in rw here (rw (← e) (h.0, h.1))
  | inr there ↦ rw there (Absent-insert j k p m (λ e. ground arith) h.0, Keys-insert k p m h.1)
]

pub Keys-delete : (k : ℕ) (m : Items) → Keys m → Keys (delete k m)
unfolding delete
Keys-delete k [] h = tt
Keys-delete k ((j, q) ∷ m) h = elim (Bool-cases (j == k)) [
  | inl here ↦ rw here h.1
  | inr there ↦ rw there (Absent-delete j k m h.0, Keys-delete k m h.1)
]

-- The sum of the weights of the items.
abbrev pub sum_weight : (ℕ → ℕ) → Items → ℕ
sum_weight weight [] = 0
sum_weight weight ((_, p) ∷ m) = weight p + sum_weight weight m

module _ (weight : ℕ → ℕ) where
  pub sum_weight-insert :
      (k p : ℕ) (m : Items)
      → lookup k m ≡ none
      → (sum_weight weight (insert k p m) ≡ sum_weight weight m + weight p)
        × (length (insert k p m) ≡ length m + 1)
  unfolding lookup insert
  sum_weight-insert k p [] h = (omega arith, omega arith)
  sum_weight-insert k p ((j, q) ∷ m) h = ground (arith, sum_weight-insert k p m)

  sum_weight-replace :
      (k p old : ℕ) (m : Items)
      → lookup k m ≡ some old
      → (sum_weight weight (insert k p m) + weight old ≡ sum_weight weight m + weight p)
        × (length (insert k p m) ≡ length m)
  unfolding lookup insert
  sum_weight-replace k p old [] h = cc
  sum_weight-replace k p old ((j, q) ∷ m) h = ground (arith, sum_weight-replace k p old m)

  pub sum_weight-delete :
      (k old : ℕ) (m : Items)
      → lookup k m ≡ some old
      → (sum_weight weight (delete k m) + weight old ≡ sum_weight weight m)
        × (length (delete k m) + 1 ≡ length m)
  unfolding lookup delete
  sum_weight-delete k old [] h = cc
  sum_weight-delete k old ((j, q) ∷ m) h = ground (arith, sum_weight-delete k old m)

  -- The counters are the sum of the weights and the number of the items, in 64 bits.
  pub record Counted (s : Shard) : Type 0 where
    pub keys : Keys s.items
    pub mem : s.mem ≡ sum_weight weight s.items % u64_mod
    pub len : s.len ≡ length s.items % u64_mod

  -- If the counters of a shard are the sum of the weights and the number of its items, in 64
  -- bits, and each key stands once, then so it is after Set, whether the key is new or is
  -- overwritten.
  pub set-Counted : (key new : ℕ) (s : Shard) → Counted s → Counted (set weight key new s)
  unfolding set count_set add64 sub64
  set-Counted key new s c = elim (Option-cases (lookup key s.items)) [
    | inl missing ↦
        let (sums, lens) = sum_weight-insert key new s.items missing in
        rw (missing, count_set)
          (record {
            keys = Keys-insert key new s.items c.keys;
            mem = omega (arith, sums, c.mem);
            len = omega (arith, lens, c.len);
          })
    | inr (old, found) ↦
        let (sums, lens) = sum_weight-replace key new old s.items found in
        rw (found, count_set)
          (record {
            keys = Keys-insert key new s.items c.keys;
            mem = omega (arith, sums, c.mem);
            len = omega (arith, lens, c.len);
          })
  ]

  -- If the counters of a shard are the sum of the weights and the number of its items, in 64
  -- bits, and each key stands once, then so it is after Remove, whether the key is found or not.
  pub remove-Counted : (key : ℕ) (s : Shard) → Counted s → Counted (remove weight key s).0
  unfolding remove remove_found add64 sub64
  remove-Counted key s c = elim (Option-cases (lookup key s.items)) [
    | inl missing ↦ rw (missing, remove_found) c
    | inr (old, found) ↦
        let (sums, lens) = sum_weight-delete key old s.items found in
        rw (found, remove_found)
          (record {
            keys = Keys-delete key s.items c.keys;
            mem = omega (arith, sums, c.mem);
            len = omega (arith, lens, c.len);
          })
  ]
