-- ===== src/Ring/Refine.antt =====
-- The ring against a list of addresses, for the operations of pkg/list/doubly_linked.go.
use adv_cache.Prelude.{
  ℕ, zero, suc, ◌+◌, ◌^◌, ◌≤◌, ◌<◌, ◌≡◌, ◌≢◌, refl, sym, ap, Bool, true, false, Bool-cases, inl,
  inr, Option, none, some, List, [], ◌∷◌, ◌++◌, All, arith, update, length, get_elem?,
  if◌then◌else◌, ◌==◌,
}
use adv_cache.Prelude.Words.{add64, sub64, lt64}
use adv_cache.Ring.{
  Ring, new_ring, insert_front, push_front, back, unlink, remove, move_to_front, walk, nth,
}
use adv_cache.Ring.Seg.{
  Seg, Differ, Distinct, All-map, All-append, All-join, Seg-split, Seg-last, Seg-first, last_of,
  first_of_rest,
}
use adv_cache.Ring.Insert.{insert_front-Seg}
use adv_cache.Ring.Delete.{delete-Seg}

-- The ring holds the elements `xs`, from the front to the back.
pub record Holds (l : Ring) (xs : List ℕ) : Type 0 where
  pub linked : Seg l.next l.prev 0 xs 0
  pub distinct : Distinct (0 ∷ xs)
  pub given : All (λ i. i < l.fresh) xs
  pub positive : 0 < l.fresh
  pub len : l.len ≡ length xs
  pub small : length xs < 2 ^ 63

pub new_ring-Holds : (name : ℕ) → Holds (new_ring name) []
unfolding new_ring
new_ring-Holds name = record {
  linked = (refl, refl);
  distinct = (tt, tt);
  given = tt;
  positive = omega arith;
  len = refl;
  small = omega arith;
}

Differ-fresh : (n : ℕ) (xs : List ℕ) → All (λ i. i < n) xs → Differ n xs
Differ-fresh n xs h = All-map {P = λ i. i < n} {Q = λ i. n ≢ i} xs (λ i lt e. omega arith) h

-- In a ring that holds a list of fewer than 2 ^ 63 - 1 elements, PushFront puts a new element
-- with the value in front of all others.
pub push_front-Holds :
    (v : ℕ) (l : Ring) (xs : List ℕ)
    → length xs + 1 < 2 ^ 63
    → Holds l xs
    → Holds (push_front v l).0 (l.fresh ∷ xs) × ((push_front v l).0.value l.fresh ≡ v)
unfolding push_front add64 insert_front
push_front-Holds v l xs room h = (
  record {
    linked =
        insert_front-Seg l.fresh
          (record l { value = update l.value l.fresh v; fresh = l.fresh + 1 }) xs (λ e. omega arith)
          (Differ-fresh l.fresh xs h.given) h.distinct h.linked;
    distinct = ((λ e. omega arith, h.distinct.0), (Differ-fresh l.fresh xs h.given, h.distinct.1));
    given = (
      omega arith,
      All-map {P = λ i. i < l.fresh} {Q = λ i. i < l.fresh + 1} xs (λ i lt. omega arith) h.given,
    );
    positive = omega arith;
    len = omega arith;
    small = omega arith;
  },
  ground arith,
)

pub Distinct-delete :
    (before : List ℕ) (e : ℕ) (after : List ℕ)
    → Distinct (before ++ e ∷ after)
    → Distinct (before ++ after) × Differ e (before ++ after)
Distinct-delete [] e after d = (d.1, d.0)
Distinct-delete (x ∷ before) e after d =
    let (rest, off) = Distinct-delete before e after d.1 in
    let (l, r) = All-append (λ i. x ≢ i) before (e ∷ after) d.0 in
    ((All-join (λ i. x ≢ i) before after l r.1, rest), (λ q. r.0 (sym q), off))

if-same {ℓ} : {A : Type ℓ} (b : Bool) (x : A) → (if b then x else x) ≡ x
if-same true x = refl
if-same false x = refl

==-refl : (a : ℕ) → (a == a) ≡ true
==-refl a = ground arith

pub length-delete :
    (before : List ℕ) (e : ℕ) (after : List ℕ)
    → length (before ++ e ∷ after) ≡ length (before ++ after) + 1
length-delete [] e after = omega arith
length-delete (x ∷ before) e after = omega (arith, length-delete before e after)

unlink-Seg :
    (l : Ring) (before : List ℕ) (e : ℕ) (after : List ℕ)
    → Holds l (before ++ e ∷ after)
    → Seg (unlink e l).next (unlink e l).prev 0 (before ++ after) 0
unfolding unlink
unlink-Seg l before e after h =
    let (left, right) = Seg-split l.next l.prev 0 before e after 0 h.linked in
    let p : l.prev e ≡ last_of 0 before = Seg-last l.next l.prev 0 before e left in
    let n : l.next e ≡ first_of_rest after 0 = Seg-first l.next l.prev e after 0 right in
    rw (p, n)
      (rw (if-same (last_of 0 before == e) (first_of_rest after 0))
        (delete-Seg l.next l.prev 0 before e after 0 h.distinct h.distinct.0 h.linked))

-- In a ring that holds a list, Remove of an element of the ring takes it out and leaves the
-- others in their order.
pub remove-Holds :
    (l : Ring) (before : List ℕ) (e : ℕ) (after : List ℕ)
    → Holds l (before ++ e ∷ after)
    → Holds (remove (some (record { list = l.name; address = e })) l) (before ++ after)
unfolding remove sub64 unlink
remove-Holds l before e after h =
    let (distinct, _) = Distinct-delete (0 ∷ before) e after h.distinct in
    let (given_l, given_r) = All-append (λ i. i < l.fresh) before (e ∷ after) h.given in
    rw (==-refl l.name) (record {
      linked = unlink-Seg l before e after h;
      distinct = distinct;
      given = All-join (λ i. i < l.fresh) before after given_l given_r.1;
      positive = h.positive;
      len = omega (arith, length-delete before e after, h.len, h.small);
      small = omega (arith, length-delete before e after, h.small);
    })

pub lt64→lt : (a b : ℕ) → a < 2 ^ 63 → b < 2 ^ 63 → lt64 a b ≡ true → a < b
unfolding lt64
lt64→lt a b ha hb h = ground arith

pub not-lt64→le : (a b : ℕ) → a < 2 ^ 63 → b < 2 ^ 63 → lt64 a b ≡ false → b ≤ a
unfolding lt64
not-lt64→le a b ha hb h = ground arith

-- Of one element, the order says nothing.
alone :
    (before : List ℕ) (e : ℕ) (after : List ℕ)
    → length (before ++ e ∷ after) < 2
    → before ++ e ∷ after ≡ e ∷ (before ++ after)
alone [] e after h = refl
alone (x ∷ before) e after h = absurd (omega (arith, length-delete before e after))

insert_unlinked-Holds :
    (l : Ring) (before : List ℕ) (e : ℕ) (after : List ℕ)
    → Holds l (before ++ e ∷ after)
    → Holds (insert_front e (unlink e l)) (e ∷ (before ++ after))
unfolding insert_front unlink
insert_unlinked-Holds l before e after h =
    let (distinct, off) = Distinct-delete (0 ∷ before) e after h.distinct in
    let (given_l, given_r) = All-append (λ i. i < l.fresh) before (e ∷ after) h.given in
    record {
      linked =
          insert_front-Seg e (unlink e l) (before ++ after) off.0 off.1 distinct
            (unlink-Seg l before e after h);
      distinct = ((λ q. off.0 (sym q), distinct.0), (off.1, distinct.1));
      given = (given_r.0, All-join (λ i. i < l.fresh) before after given_l given_r.1);
      positive = h.positive;
      len = omega (arith, length-delete before e after, h.len);
      small = omega (arith, length-delete before e after, h.small);
    }

-- In a ring that holds a list, MoveToFront of an element of the ring puts it in front of the
-- others, which keep their order.
pub move_to_front-Holds :
    (l : Ring) (before : List ℕ) (e : ℕ) (after : List ℕ)
    → Holds l (before ++ e ∷ after)
    → Holds (move_to_front (some (record { list = l.name; address = e })) l) (e ∷ (before ++ after))
unfolding move_to_front
move_to_front-Holds l before e after h = elim (Bool-cases (lt64 l.len 2)) [
  | inl short ↦
      let few = lt64→lt l.len 2 (omega (arith, h.len, h.small)) (omega arith) short in
      rw (==-refl l.name, short) (rw (alone before e after (omega (arith, h.len, few))) at h)
  | inr long ↦ rw (==-refl l.name, long) (insert_unlinked-Holds l before e after h)
]

-- The last element of a list.
abbrev pub last? : List ℕ → Option ℕ
last? [] = none
last? (x ∷ xs) = some (last_of x xs)

-- In a ring that holds a list, Back gives its last element, and nothing exactly when there is
-- none.
pub back-last? : (l : Ring) (xs : List ℕ) → Holds l xs → back l ≡ last? xs
unfolding back
back-last? l [] h = ground (arith, h.len)
back-last? l (x ∷ xs) h =
    let e = Seg-last l.next l.prev 0 (x ∷ xs) 0 h.linked in ground (arith, h.len, e)

walk-get_elem? :
    (next prev : ℕ → ℕ) (a : ℕ) (xs : List ℕ) (n : ℕ)
    → Seg next prev a xs 0
    → n < length xs
    → some (walk next n (next a)) ≡ get_elem? xs n
unfolding walk
walk-get_elem? next prev a [] n s h = absurd (omega arith)
walk-get_elem? next prev a (x ∷ xs) zero s h = ap some s.0
walk-get_elem? next prev a (x ∷ xs) (suc n) s h =
    rw (s.0) (walk-get_elem? next prev x xs n s.2 (omega arith))

pub get_elem?-beyond : (xs : List ℕ) (n : ℕ) → length xs ≤ n → get_elem? xs n ≡ none
get_elem?-beyond [] n h = refl
get_elem?-beyond (x ∷ xs) zero h = absurd (omega arith)
get_elem?-beyond (x ∷ xs) (suc n) h = get_elem?-beyond xs n (omega arith)

-- In a ring that holds a list, Next gives the element at an offset below 2 ^ 63 from the front,
-- and nothing exactly at an offset that is not below the length.
pub nth-get_elem? :
    (l : Ring) (xs : List ℕ) (n : ℕ) → n < 2 ^ 63 → Holds l xs → nth n l ≡ get_elem? xs n
unfolding nth
nth-get_elem? l xs n bound h = elim (Bool-cases (lt64 n l.len)) [
  | inl inside ↦
      let lt = lt64→lt n l.len bound (omega (arith, h.len, h.small)) inside in
      rw inside (walk-get_elem? l.next l.prev 0 xs n h.linked (omega (arith, h.len, lt)))
  | inr outside ↦ rw outside (
      sym (
        get_elem?-beyond xs n (
          omega (arith, h.len, not-lt64→le n l.len bound (omega (arith, h.len, h.small)) outside))))
]
