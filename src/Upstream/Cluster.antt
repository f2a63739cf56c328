-- ===== src/Upstream/Cluster.antt =====
-- How the cluster takes a slot for a request and counts the outcome (pkg/upstream/cluster.go). The
-- answer of the backend is an argument; the slot channel is the list of the slots sent to it, each
-- by its identifier, and the slots stand in a table by that identifier.
use adv_cache.Prelude.{ℕ, ◌+◌, Bool, true, List, [], ◌∷◌, leb, if◌then◌else◌, update}
use adv_cache.Upstream.Slot.{Slot}

-- What the HTTP client gives: an error, or a response with a status code.
pub data Answer : Type 0 where
  failure : Answer
  response : ℕ → Answer

-- err != nil || outResp.StatusCode() >= fasthttp.StatusInternalServerError
abbrev pub is_error : Answer → Bool
is_error failure = true
is_error (response status) = leb 500 status

unfoldable pub count_request : Answer → Slot → Slot
count_request a s =
    if is_error a
    then record s { total = s.total + 1; errors = s.errors + 1 }
    else record s { total = s.total + 1 }

pub record Cluster : Type 0 where
  pub is_await_policy : Bool
  pub slot_ch : List ℕ
  pub slots : ℕ → Slot

pub data Fetched : Type 0 where
  no_healthy_backends : Fetched
  all_backends_are_busy : Fetched
  -- the receive waits for a slot
  waits : Fetched
  answered : ℕ → Answer → Fetched

-- `fetch` on the slot that was received.
unfoldable pub fetch_from : ℕ → Answer → Cluster → Cluster × Fetched
unfolding count_request
fetch_from i a c =
    (record c { slots = update c.slots i (count_request a (c.slots i)) }, answered i a)

-- The first argument is healthyBackends; the answer is that of the backend of each slot.
unfoldable pub fetch : ℕ → (ℕ → Answer) → Cluster → Cluster × Fetched
unfolding fetch_from
fetch healthy_backends answer c =
    if leb healthy_backends 0 then (c, no_healthy_backends) else elim c.slot_ch [
      | [] ↦ (c, if c.is_await_policy then waits else all_backends_are_busy)
      | i ∷ rest ↦ fetch_from i (answer i) (record c { slot_ch = rest })
    ]
