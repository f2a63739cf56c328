-- ===== src/Ring/Insert.antt =====
-- Linking an element in behind the root (pkg/list/doubly_linked.go).
use adv_cache.Prelude.{ℕ, ◌≢◌, List, [], ◌∷◌, arith, update, ◌∙◌}
use adv_cache.Ring.{Ring, insert_front}
use adv_cache.Ring.Seg.{Seg, Differ, Distinct, All-map, Seg-frame, All-both, update_ne}

pub insert_front-Seg :
    (e : ℕ) (l : Ring) (xs : List ℕ)
    → e ≢ 0
    → Differ e xs
    → Distinct (0 ∷ xs)
    → Seg l.next l.prev 0 xs 0
    → Seg (insert_front e l).next (insert_front e l).prev 0 (e ∷ xs) 0
unfolding insert_front
insert_front-Seg e l [] r f d s = (ground arith, ground arith, (ground arith, ground arith))
insert_front-Seg e l (x ∷ xs) r f d s =
    let l' = insert_front e l in
    (
      ground arith,
      ground arith,
      (
        ground arith,
        ground arith,
        Seg-frame l.next l.prev l'.next l'.prev x xs 0
            (
              ground arith,
              All-map {P = λ i. (e ≢ i) × (0 ≢ i)} xs
                  (λ i h.
                    update_ne (update l.next e (l.next 0)) 0 e i h.1
                    ∙ update_ne l.next e (l.next 0) i h.0)
                  (All-both (λ i. e ≢ i) (λ i. 0 ≢ i) xs f.1 d.0.1),
            )
            (All-map {P = λ i. (e ≢ i) × (x ≢ i)} xs
              (λ i h. ground (arith, h, update_ne l.prev e 0 i h.0))
              (All-both (λ i. e ≢ i) (λ i. x ≢ i) xs f.1 d.1.0))
            (ground arith) s.2,
      ),
    )
