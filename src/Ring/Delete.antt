-- ===== src/Ring/Delete.antt =====
-- Taking an element out of a segment (pkg/list/doubly_linked.go).
use adv_cache.Prelude.{ℕ, ◌≢◌, List, [], ◌∷◌, ◌++◌, update, sym, ◌∙◌}
use adv_cache.Ring.Seg.{
  Seg, Differ, Distinct, All-map, All-append, Seg-frame, last_of, first_of_rest, All-last,
  All-first, update_ne, update_eq,
}

pub delete-Seg :
    (next prev : ℕ → ℕ) (a : ℕ) (before : List ℕ) (e : ℕ) (after : List ℕ) (z : ℕ)
    → Distinct (a ∷ (before ++ e ∷ after))
    → Differ z (before ++ e ∷ after)
    → Seg next prev a (before ++ e ∷ after) z
    → Seg
        (update next (last_of a before) (first_of_rest after z))
        (update prev (first_of_rest after z) (last_of a before))
        a
        (before ++ after)
        z
delete-Seg next prev a [] e [] z d dz s = (update_eq next a z, update_eq prev z a)
delete-Seg next prev a [] e (y ∷ r) z d dz s = (
  update_eq next a y,
  update_eq prev y a,
  Seg-frame next prev (update next a y) (update prev y a) y r z
      (All-map {P = λ i. a ≢ i} (y ∷ r) (λ i h. update_ne next a y i h) (d.0.1.0, d.0.1.1))
      (All-map {P = λ i. y ≢ i} r (λ i h. update_ne prev y a i h) d.1.1.0)
      (update_ne prev y a z (λ q. dz.1.0 (sym q))) s.2.2,
)
delete-Seg next prev a (x ∷ before) e after z d dz s =
    let c = last_of x before in
    let f = first_of_rest after z in
    let ac : a ≢ c =
      All-last (λ i. a ≢ i) x before
        (d.0.0, (All-append (λ i. a ≢ i) before (e ∷ after) d.0.1).0) in
    let xf : x ≢ f =
      All-first (λ i. x ≢ i) after z (All-append (λ i. x ≢ i) before (e ∷ after) d.1.0).1.1
        (λ q. dz.0 (sym q)) in
    (
      update_ne next c f a (λ q. ac (sym q)) ∙ s.0,
      update_ne prev f c x (λ q. xf (sym q)) ∙ s.1,
      delete-Seg next prev x before e after z d.1 dz.1 s.2,
    )
