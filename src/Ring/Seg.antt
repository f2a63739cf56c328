-- ===== src/Ring/Seg.antt =====
-- A segment of the ring of pkg/list/doubly_linked.go: the elements between two addresses, linked
-- both ways.
use adv_cache.Prelude.{ℕ, ◌≡◌, ◌≢◌, List, [], ◌∷◌, ◌++◌, All, arith, update, ◌∙◌}

-- From `a` by way of `xs` to `z`.
abbrev pub Seg : (ℕ → ℕ) → (ℕ → ℕ) → ℕ → List ℕ → ℕ → Type 0
Seg next prev a [] z = (next a ≡ z) × (prev z ≡ a)
Seg next prev a (x ∷ xs) z = (next a ≡ x) × (prev x ≡ a) × Seg next prev x xs z

abbrev pub Differ : ℕ → List ℕ → Type 0
Differ a = All (λ x. a ≢ x)

-- No address twice.
abbrev pub Distinct : List ℕ → Type 0
Distinct [] = Unit
Distinct (x ∷ xs) = Differ x xs × Distinct xs

pub All-map {ℓ κ} :
    {P : ℕ → Type ℓ} {Q : ℕ → Type κ} (xs : List ℕ) → ((x : ℕ) → P x → Q x) → All P xs → All Q xs
All-map [] f h = tt
All-map (x ∷ xs) f h = (f x h.0, All-map xs f h.1)

module _ {ℓ} (P : ℕ → Type ℓ) where
  pub All-append : (xs bs : List ℕ) → All P (xs ++ bs) → All P xs × All P bs
  All-append [] bs h = (tt, h)
  All-append (x ∷ xs) bs h = let (l, r) = All-append xs bs h.1 in ((h.0, l), r)

  pub All-join : (xs bs : List ℕ) → All P xs → All P bs → All P (xs ++ bs)
  All-join [] bs h k = k
  All-join (x ∷ xs) bs h k = (h.0, All-join xs bs h.1 k)

-- What is written elsewhere leaves a segment as it is.
pub Seg-frame :
    (next prev next' prev' : ℕ → ℕ) (a : ℕ) (xs : List ℕ) (z : ℕ)
    → All (λ i. next' i ≡ next i) (a ∷ xs)
    → All (λ i. prev' i ≡ prev i) xs
    → prev' z ≡ prev z
    → Seg next prev a xs z
    → Seg next' prev' a xs z
Seg-frame next prev next' prev' a [] z hn hp hz s = (hn.0 ∙ s.0, hz ∙ s.1)
Seg-frame next prev next' prev' a (x ∷ xs) z hn hp hz s =
    (hn.0 ∙ s.0, hp.0 ∙ s.1, Seg-frame next prev next' prev' x xs z hn.1 hp.1 hz s.2)

-- The last address before `z`, and the first after `a`.
abbrev pub last_of : ℕ → List ℕ → ℕ
last_of a [] = a
last_of a (x ∷ xs) = last_of x xs

abbrev pub first_of_rest : List ℕ → ℕ → ℕ
first_of_rest [] z = z
first_of_rest (x ∷ xs) z = x

pub Seg-last :
    (next prev : ℕ → ℕ) (a : ℕ) (xs : List ℕ) (z : ℕ) → Seg next prev a xs z → prev z ≡ last_of a xs
Seg-last next prev a [] z s = s.1
Seg-last next prev a (x ∷ xs) z s = Seg-last next prev x xs z s.2

pub Seg-first :
    (next prev : ℕ → ℕ) (a : ℕ) (xs : List ℕ) (z : ℕ)
    → Seg next prev a xs z
    → next a ≡ first_of_rest xs z
Seg-first next prev a [] z s = s.0
Seg-first next prev a (x ∷ xs) z s = s.0

pub Seg-split :
    (next prev : ℕ → ℕ) (a : ℕ) (before : List ℕ) (e : ℕ) (after : List ℕ) (z : ℕ)
    → Seg next prev a (before ++ e ∷ after) z
    → Seg next prev a before e × Seg next prev e after z
Seg-split next prev a [] e after z s = ((s.0, s.1), s.2)
Seg-split next prev a (x ∷ before) e after z s =
    let (l, r) = Seg-split next prev x before e after z s.2 in ((s.0, s.1, l), r)

pub Seg-join :
    (next prev : ℕ → ℕ) (a : ℕ) (before : List ℕ) (e : ℕ) (after : List ℕ) (z : ℕ)
    → Seg next prev a before e
    → Seg next prev e after z
    → Seg next prev a (before ++ e ∷ after) z
Seg-join next prev a [] e after z l r = (l.0, l.1, r)
Seg-join next prev a (x ∷ before) e after z l r =
    (l.0, l.1, Seg-join next prev x before e after z l.2 r)

module _ (P : ℕ → Type 0) where
  pub All-last : (x : ℕ) (xs : List ℕ) → All P (x ∷ xs) → P (last_of x xs)
  All-last x [] h = h.0
  All-last x (y ∷ xs) h = All-last y xs h.1

  pub All-first : (xs : List ℕ) (z : ℕ) → All P xs → P z → P (first_of_rest xs z)
  All-first [] z h k = k
  All-first (x ∷ xs) z h k = h.0

pub All-both : (P Q : ℕ → Type 0) (xs : List ℕ) → All P xs → All Q xs → All (λ i. P i × Q i) xs
All-both P Q [] p q = tt
All-both P Q (i ∷ xs) p q = ((p.0, q.0), All-both P Q xs p.1 q.1)

pub update_ne : (f : ℕ → ℕ) (p v q : ℕ) → p ≢ q → update f p v q ≡ f q
update_ne f p v q h = ground arith

pub update_eq : (f : ℕ → ℕ) (p v : ℕ) → update f p v p ≡ v
update_eq f p v = ground arith
