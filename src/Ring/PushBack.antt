-- ===== src/Ring/PushBack.antt =====
-- Linking an element in before the root (pkg/list/doubly_linked.go: PushBack).
use adv_cache.Prelude.{
  ℕ, ◌+◌, ◌^◌, ◌<◌, ◌≡◌, ◌≢◌, refl, List, [], ◌∷◌, ◌++◌, arith, update, length, length-append,
}
use adv_cache.Prelude.Words.{add64}
use adv_cache.Ring.{Ring, push_back}
use adv_cache.Ring.Seg.{Seg, Differ, Distinct, All-map, All-join, All-last, Seg-last, last_of}
use adv_cache.Ring.Refine.{Holds}

-- The links behind the last element of a segment that ends at the root.
push_back-Seg :
    (next prev : ℕ → ℕ) (e a : ℕ) (xs : List ℕ)
    → e ≢ 0
    → Differ e (a ∷ xs)
    → Differ 0 xs
    → Distinct (a ∷ xs)
    → Seg next prev a xs 0
    → Seg
        (update (update next e 0) (last_of a xs) e)
        (update (update prev e (last_of a xs)) 0 e)
        a
        (xs ++ e ∷ [])
        0
push_back-Seg next prev e a [] r f z d s =
    (ground arith, ground (arith, f.0), (ground (arith, f.0), ground arith))
push_back-Seg next prev e a (x ∷ xs) r f z d s =
    let off : last_of x xs ≢ a = λ q. All-last (λ i. a ≢ i) x xs d.0 (sym_of q) in
    (
      ground (arith, s.0, f.0, off),
      ground (arith, s.1, f.1.0, z.0),
      push_back-Seg next prev e x xs r f.1 z.1 d.1 s.2,
    )
  where
    sym_of : {p q : ℕ} → p ≡ q → q ≡ p
    sym_of h = omega (arith, h)

Distinct-snoc : (xs : List ℕ) (e : ℕ) → Differ e xs → Distinct xs → Distinct (xs ++ e ∷ [])
Distinct-snoc [] e f d = (tt, tt)
Distinct-snoc (x ∷ xs) e f d = (
  All-join (λ i. x ≢ i) xs (e ∷ []) d.0 ((λ q. f.0 (omega (arith, q))), tt),
  Distinct-snoc xs e f.1 d.1,
)

-- In a ring that holds a list of fewer than 2 ^ 63 - 1 elements, PushBack puts a new element with
-- the value behind all others, and leaves the values of the others.
pub push_back-Holds :
    (v : ℕ) (l : Ring) (xs : List ℕ)
    → length xs + 1 < 2 ^ 63
    → Holds l xs
    → Holds (push_back v l).0 (xs ++ l.fresh ∷ [])
      × ((push_back v l).0.value ≡ update l.value l.fresh v)
unfolding push_back add64
push_back-Holds v l xs room h =
    let off : Differ l.fresh xs =
      All-map {P = λ i. i < l.fresh} {Q = λ i. l.fresh ≢ i} xs (λ i lt e. omega arith) h.given in
    let at : l.prev 0 ≡ last_of 0 xs = Seg-last l.next l.prev 0 xs 0 h.linked in
    (
      record {
        linked = rw at (
            push_back-Seg l.next l.prev l.fresh 0 xs (λ e. omega (arith, h.positive))
              ((λ e. omega (arith, h.positive)), off) h.distinct.0 h.distinct h.linked);
        distinct =
            Distinct-snoc (0 ∷ xs) l.fresh ((λ e. omega (arith, h.positive)), off) h.distinct;
        given =
            All-join (λ i. i < l.fresh + 1) xs (l.fresh ∷ [])
              (All-map {P = λ i. i < l.fresh} {Q = λ i. i < l.fresh + 1} xs (λ i lt. omega arith)
                h.given)
              (omega arith, tt);
        positive = omega arith;
        len = omega (arith, length-append xs (l.fresh ∷ []), h.len);
        small = omega (arith, length-append xs (l.fresh ∷ []));
      },
      refl,
    )
