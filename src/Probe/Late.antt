-- ===== src/Probe/Late.antt =====
-- Answers that come late (pkg/k8s/probe/liveness/prober.go).
use adv_cache.Prelude.{ℕ, ◌≡◌, ◌≤◌, refl, ap, Bool, List, [], ◌∷◌, ◌++◌, All, arith}
use adv_cache.Ring.Members.{All-delete}
use adv_cache.Probe.{
  holding, Answer, Probe, Step, called, taken, checked, replied, timed_out, gave_up, Reach, here,
  next,
}

abbrev answer : ℕ → ℕ → Bool → Answer
answer d c v = record { caller = d; asked = c; alive = v }

-- The answer `v` to the call `c` is still held and only calls since `p` wait, or it has been given,
-- as the first one, to such a call.
pub data Late (p : Probe) (c : ℕ) (v : Bool) (t : Probe) : Type 0 where
  held :
      t.watcher ≡ holding c v
      → t.answers ≡ p.answers
      → p.next_call ≤ t.next_call
      → All (λ d. p.next_call ≤ d) t.waiting
      → Late p c v t
  given :
      (newer : List Answer) (d : ℕ)
      → t.answers ≡ newer ++ (answer d c v ∷ p.answers)
      → p.next_call ≤ d
      → Late p c v t

Step-Late : {p t u : Probe} {c : ℕ} {v : Bool} → Step t u → Late p c v t → Late p c v u
Step-Late (called t) (held w a n ws) = held w a (omega (arith, n)) (n, ws)
Step-Late (taken before after k t m i) (held w a n ws) = cc (w, i)
Step-Late (checked k services t i) (held w a n ws) = cc (w, i)
Step-Late {p} {c} {v} (replied before after d k b t m i) (held w a n ws) =
    let same_call : k ≡ c = cc (w, i) in
    let same_value : b ≡ v = cc (w, i) in
    let all : All (λ x. p.next_call ≤ x) (before ++ d ∷ after) = rw m at ws in
    given [] d (rw (same_call, same_value, a) refl)
      (All-delete (λ x. p.next_call ≤ x) before d after all).0
Step-Late {p} (timed_out before after d t m) (held w a n ws) =
    let all : All (λ x. p.next_call ≤ x) (before ++ d ∷ after) = rw m at ws in
    held w a n (All-delete (λ x. p.next_call ≤ x) before d after all).1
Step-Late (gave_up before after k t m i) (held w a n ws) = held w a n ws
Step-Late (called t) (given newer d e le) = given newer d e le
Step-Late (taken before after k t m i) (given newer d e le) = given newer d e le
Step-Late (checked k services t i) (given newer d e le) = given newer d e le
Step-Late (replied before after d' k b t m i) (given newer d e le) =
    given (answer d' k b ∷ newer) d (ap (λ (l : List Answer). answer d' k b ∷ l) e) le
Step-Late (timed_out before after k t m) (given newer d e le) = given newer d e le
Step-Late (gave_up before after k t m i) (given newer d e le) = given newer d e le

-- When the watcher holds an answer to a call and no call waits, since all have timed out: whatever
-- happens then, either no call has got an answer yet and it is still held, or the first call that
-- got one is a later call, and it got the old answer, whatever the services would say.
pub Reach-Late :
    (p t : Probe) (c : ℕ) (v : Bool)
    → p.watcher ≡ holding c v
    → p.waiting ≡ []
    → Reach p t
    → Late p c v t
Reach-Late p t c v w empty steps = go steps
  where
    go : {t : Probe} → Reach p t → Late p c v t
    go here = held w refl (omega arith) (rw empty tt)
    go (next steps s) = Step-Late s (go steps)
