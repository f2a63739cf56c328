-- ===== src/Tests/Switches.antt =====
-- The switch and the writer of the metrics at concrete inputs; the floats are thousandths.
use adv_cache.Prelude.{ℕ, ◌≡◌, none, List, [], ◌∷◌, length}
use adv_cache.Api.Proxy.{failed, fetched}
use adv_cache.Api.Switch.{on, off}
use adv_cache.Api.Switch.Bypass.{Incoming, serve_all, serve_all-off}
use adv_cache.Api.Metrics.{Counters, reset, Event, request, ticked, hour, run}
use adv_cache.Api.Metrics.Accounts.{Accounted, run-Accounted}
use adv_cache.Tests.Requests.{a_request, a_response}
use adv_cache.Tests.Slots.{thousandths}
use adv_cache.Tests.Caches.{controller, hit_storage}

abbrev two : List Incoming
two =
    record { entry = none; first = failed; second = fetched a_request a_response }
    ∷ record { entry = none; first = failed; second = failed }
    ∷ []

abbrev served : ℕ → Counters
served n = record reset { total = n; hits = n }

abbrev events : List (Event thousandths)
events = hour ∷ request (served 4) ∷ ticked 1000 (served 2) ∷ request (served 3) ∷ []

run-Accounted_example : Accounted (run thousandths events)
run-Accounted_example = run-Accounted thousandths events

serve_all-off_example :
    (on (serve_all length 90 two (off (controller hit_storage)).0)).0
    ≡ record (controller hit_storage) { total = 2; proxied = 2 }
serve_all-off_example = serve_all-off length 90 two (controller hit_storage)
