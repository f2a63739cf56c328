-- ===== src/Ring/Members.antt =====
-- Members of the list that a ring holds (pkg/list/doubly_linked.go), and what the operations leave
-- of the values of the elements.
use adv_cache.Prelude.{
  ℕ, ◌≡◌, ◌≢◌, refl, sym, ap, ◌⊎◌, inl, inr, Option, none, some, List, [], ◌∷◌, ◌++◌, All, arith,
  update,
}
use adv_cache.Model.Entry.{Pointer}
use adv_cache.Ring.{Ring, insert_front, push_front, unlink, remove, move_to_front}

abbrev pub In : ℕ → List ℕ → Type 0
In a [] = ⊥
In a (x ∷ xs) = (a ≡ x) ⊎ In a xs

pub In-left : (a : ℕ) (xs ys : List ℕ) → In a xs → In a (xs ++ ys)
In-left a [] ys m = elim m [ ]
In-left a (x ∷ xs) ys (inl q) = inl q
In-left a (x ∷ xs) ys (inr m) = inr (In-left a xs ys m)

pub In-right : (a : ℕ) (xs ys : List ℕ) → In a ys → In a (xs ++ ys)
In-right a [] ys m = m
In-right a (x ∷ xs) ys m = inr (In-right a xs ys m)

pub In-split :
    (a : ℕ) (xs : List ℕ)
    → In a xs
    → (before : List ℕ) × (after : List ℕ) × (xs ≡ before ++ a ∷ after)
In-split a [] m = elim m [ ]
In-split a (x ∷ xs) (inl e) = ([], xs, ap (λ (b : ℕ). b ∷ xs) (sym e))
In-split a (x ∷ xs) (inr m) =
    let (before, after, e) = In-split a xs m in (x ∷ before, after, ap (λ (l : List ℕ). x ∷ l) e)

-- A member other than `e` stays when `e` is taken out.
pub In-delete :
    (a e : ℕ) (before after : List ℕ) → a ≢ e → In a (before ++ e ∷ after) → In a (before ++ after)
In-delete a e [] after h (inl q) = absurd (h q)
In-delete a e [] after h (inr m) = m
In-delete a e (x ∷ before) after h (inl q) = inl q
In-delete a e (x ∷ before) after h (inr m) = inr (In-delete a e before after h m)

pub In-front :
    (a e : ℕ) (before after : List ℕ) → In a (before ++ e ∷ after) → In a (e ∷ (before ++ after))
In-front a e [] after m = m
In-front a e (x ∷ before) after (inl q) = inr (inl q)
In-front a e (x ∷ before) after (inr m) = elim (In-front a e before after m) [
  | inl q ↦ inl q
  | inr r ↦ inr (inr r)
]

pub In-back :
    (a e : ℕ) (before after : List ℕ) → In a (e ∷ (before ++ after)) → In a (before ++ e ∷ after)
In-back a e [] after m = m
In-back a e (x ∷ before) after (inl q) = inr (In-back a e before after (inl q))
In-back a e (x ∷ before) after (inr (inl q)) = inl q
In-back a e (x ∷ before) after (inr (inr m)) = inr (In-back a e before after (inr m))

pub In-insert :
    (a e : ℕ) (before after : List ℕ) → In a (before ++ after) → In a (before ++ e ∷ after)
In-insert a e before after m = In-back a e before after (inr m)

pub All-In : (P : ℕ → Type 0) (a : ℕ) (xs : List ℕ) → All P xs → In a xs → P a
All-In P a [] h m = elim m [ ]
All-In P a (x ∷ xs) h (inl q) = rw q h.0
All-In P a (x ∷ xs) h (inr m) = All-In P a xs h.1 m

pub All-delete :
    (P : ℕ → Type 0) (before : List ℕ) (p : ℕ) (after : List ℕ)
    → All P (before ++ p ∷ after)
    → P p × All P (before ++ after)
All-delete P [] p after h = h
All-delete P (x ∷ before) p after h =
    let (at, rest) = All-delete P before p after h.1 in (at, (h.0, rest))

pub value-push_front : (v : ℕ) (l : Ring) → (push_front v l).0.value ≡ update l.value l.fresh v
unfolding push_front insert_front
value-push_front v l = refl

pub value-remove : (e : Option Pointer) (l : Ring) → (remove e l).value ≡ l.value
unfolding remove unlink
value-remove none l = refl
value-remove (some e) l = ground arith

pub value-move_to_front : (e : Option Pointer) (l : Ring) → (move_to_front e l).value ≡ l.value
unfolding move_to_front insert_front unlink
value-move_to_front none l = refl
value-move_to_front (some e) l = ground arith

pub name-push_front : (v : ℕ) (l : Ring) → (push_front v l).0.name ≡ l.name
unfolding push_front insert_front
name-push_front v l = refl

pub name-remove : (e : Option Pointer) (l : Ring) → (remove e l).name ≡ l.name
unfolding remove unlink
name-remove none l = refl
name-remove (some e) l = ground arith

pub name-move_to_front : (e : Option Pointer) (l : Ring) → (move_to_front e l).name ≡ l.name
unfolding move_to_front insert_front unlink
name-move_to_front none l = refl
name-move_to_front (some e) l = ground arith
