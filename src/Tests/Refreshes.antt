-- ===== src/Tests/Refreshes.antt =====
-- The refresher at concrete inputs; the floats are thousandths.
use adv_cache.Prelude.{◌≡◌, refl, Option, some, none, [], arith, length}
use adv_cache.Prelude.Int.{pos}
use adv_cache.Model.Entry.{Entry}
use adv_cache.Model.Payload.{Unpacked, unpacked, payload, set_payload}
use adv_cache.Model.Payload.RoundTrip.{payload-set_payload}
use adv_cache.Model.Refresh.{Settings, RuleRefresh}
use adv_cache.Storage.{Storage, set, insert}
use adv_cache.Storage.Evictor.{new_storage}
use adv_cache.Storage.Refresher.{Fetched, fetched, refreshed, Refresh, refresh, scan}
use adv_cache.Storage.Refresher.Outcomes.{Renewed, refresh-Renewed}
use adv_cache.Storage.Refresher.Steps.{Balanced, Step, Reach, Reach-Balanced}
use adv_cache.Tests.Requests.{an_entry, a_request, a_response, an_entry-Packable}
use adv_cache.Tests.Rings.{frequencies}
use adv_cache.Tests.Slots.{thousandths}
use adv_cache.Tests.Evictions.{started, started-Ready, started-Fits}

abbrev answers : Unpacked → Fetched
answers u = fetched a_request a_response

abbrev packed : Storage
packed = (new_storage (λ p. set_payload 77 a_request a_response an_entry) frequencies 0 1).db

refresh-Renewed_example :
    (t : Storage) × (refresh 99 1 answers packed ≡ some (t, refreshed))
    × Renewed 99 1 packed t
    × (payload (t.entries 1)
        ≡ some (
            unpacked (record {
              path = a_request.path;
              query = a_request.query;
              query_headers = a_request.headers;
              status = 200;
              headers = a_response.headers;
              body = a_response.body;
            })))
unfolding new_storage
refresh-Renewed_example =
    refresh-Renewed 99 1 answers
      (record {
        path = a_request.path;
        query = a_request.query;
        query_headers = a_request.headers;
        status = 200;
        headers = a_response.headers;
        body = a_response.body;
      })
      a_request a_response packed
      (payload-set_payload 77 a_request a_response an_entry an_entry-Packable) refl refl
      an_entry-Packable

abbrev settings : Settings thousandths
settings = record { ttl = pos 1000; beta = 400; coefficient = 500 }

abbrev no_rule : Entry → Option (RuleRefresh thousandths)
no_rule e = none

abbrev idle : Storage → Refresh
idle s = record { storage = s; pending = []; scans = 0; scans_found = 0; success = 0; failures = 0 }

idle-Balanced : Balanced (idle started.db)
idle-Balanced = record { valid = started-Ready.valid; ended = refl; scanned = omega arith }

Reach-Balanced_example : Balanced (
    scan thousandths settings no_rule 10 5000 5 0
      (record (idle started.db) { storage = (set length 50 1 started.db).0 }))
Reach-Balanced_example = Reach-Balanced thousandths settings no_rule idle-Balanced (
    Reach.next (Reach.next Reach.here (Step.put length 50 1 (idle started.db) started-Fits.new)) (
      Step.scanned 10 5000 5 0
        (record (idle started.db) { storage = (set length 50 1 started.db).0 })))

abbrev with_one : Refresh
with_one = idle (insert 1 (new_storage (λ p. an_entry) frequencies 0 1).db)
