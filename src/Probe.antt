-- ===== src/Probe.antt =====
-- The liveness probe (pkg/k8s/probe/liveness/prober.go) with Watch called once. Both channels are
-- unbuffered, so a send and its receive are one step. Each call of IsAlive has a number; its own
-- goroutine waits to send the question while the call waits for an answer or its timeout. What the
-- services say is an argument of the step in which the watcher asks them.
pub mod Late
use adv_cache.Prelude.{ℕ, ◌+◌, ◌≡◌, Bool, true, ◌&&◌, List, [], ◌∷◌, ◌++◌}
use adv_cache.Ring.Members.{In}

-- The goroutine of Watch: it waits for a question, asks the services for that of a call, or waits to
-- hand over the answer to it.
pub data Watcher : Type 0 where
  idle : Watcher
  checking : ℕ → Watcher
  holding : ℕ → Bool → Watcher

-- An answer that a call got, and the call whose question it answers.
pub record Answer : Type 0 where
  pub caller : ℕ
  pub asked : ℕ
  pub alive : Bool

-- `answers` keeps what the calls returned without a timeout, the latest first.
pub record Probe : Type 0 where
  pub next_call : ℕ
  pub asking : List ℕ
  pub waiting : List ℕ
  pub watcher : Watcher
  pub answers : List Answer

unfoldable pub all_alive : Bool → List Bool → Bool
all_alive is_alive [] = is_alive
all_alive is_alive (s ∷ services) = all_alive (is_alive && s) services

abbrev pub call : Probe → Probe
call p = record p {
  next_call = p.next_call + 1;
  asking = p.next_call ∷ p.asking;
  waiting = p.next_call ∷ p.waiting;
}

abbrev pub take : ℕ → List ℕ → Probe → Probe
take c others p = record p { asking = others; watcher = checking c }

abbrev pub check : ℕ → List Bool → Probe → Probe
check c services p = record p { watcher = holding c (all_alive true services) }

abbrev pub reply : ℕ → ℕ → Bool → List ℕ → Probe → Probe
reply d c v others p = record p {
  waiting = others;
  watcher = idle;
  answers = record { caller = d; asked = c; alive = v } ∷ p.answers;
}

pub data Step : Probe → Probe → Type 0 where
  called : (p : Probe) → Step p (call p)
  taken :
      (before after : List ℕ) (c : ℕ) (p : Probe)
      → p.asking ≡ before ++ (c ∷ after)
      → p.watcher ≡ idle
      → Step p (take c (before ++ after) p)
  checked :
      (c : ℕ) (services : List Bool) (p : Probe)
      → p.watcher ≡ checking c
      → Step p (check c services p)
  replied :
      (before after : List ℕ) (d c : ℕ) (v : Bool) (p : Probe)
      → p.waiting ≡ before ++ (d ∷ after)
      → p.watcher ≡ holding c v
      → Step p (reply d c v (before ++ after) p)
  timed_out :
      (before after : List ℕ) (d : ℕ) (p : Probe)
      → p.waiting ≡ before ++ (d ∷ after)
      → Step p (record p { waiting = before ++ after })
  gave_up :
      (before after : List ℕ) (c : ℕ) (p : Probe)
      → p.asking ≡ before ++ (c ∷ after)
      → (In c p.waiting → ⊥)
      → Step p (record p { asking = before ++ after })

pub data Reach (p : Probe) : Probe → Type 0 where
  here : Reach p p
  next : {t u : Probe} → Reach p t → Step t u → Reach p u

abbrev pub new_probe : Probe
new_probe = record { next_call = 0; asking = []; waiting = []; watcher = idle; answers = [] }
