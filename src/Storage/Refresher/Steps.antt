-- ===== src/Storage/Refresher/Steps.antt =====
-- The refresher among the requests and the evictor (pkg/storage/lru/refresher.go): its workers' scans
-- and its goroutines in any order, between calls of Get, Set and Remove.
use adv_cache.Prelude.{
  ℕ, ◌+◌, ◌≤◌, ◌≡◌, refl, true, false, Option, none, some, List, ◌∷◌, ◌++◌, arith, length, ap,
}
use adv_cache.Prelude.Int.{lt_int}
use adv_cache.Upstream.Float.{Float64}
use adv_cache.Model.Binary.{Bytes}
use adv_cache.Model.Entry.{Entry}
use adv_cache.Model.Payload.{Unpacked}
use adv_cache.Model.Refresh.{
  Settings, RuleRefresh, settings_for, min_stale, elapsed, is_due, should_be_refreshed,
}
use adv_cache.Ring.Refine.{length-delete}
use adv_cache.Storage.{Storage, map_get, get, set, remove}
use adv_cache.Storage.Valid.{IsValid}
use adv_cache.Storage.Valid.New.{IsNew}
use adv_cache.Storage.Valid.Gone.{remove-IsValid}
use adv_cache.Storage.Valid.Kept.{set-IsValid, get-IsValid}
use adv_cache.Storage.Refresher.{
  Fetched, Result, refreshed, payload_error, fetch_error, bad_status, refresh, Refresh, rnd,
  found_due, scan, count,
}
use adv_cache.Storage.Refresher.Outcomes.{refresh-IsValid}

-- The storage is valid, each refresh that was started is counted once or still waits, and a refresh
-- is started by a scan only.
pub record Balanced (r : Refresh) : Type 0 where
  pub valid : IsValid r.storage
  pub ended : r.scans_found ≡ r.success + r.failures + length r.pending
  pub scanned : r.scans_found ≤ r.scans

count-storage : (s : Storage) (res : Result) (r : Refresh) → (count (s, res) r).storage ≡ s
unfolding count
count-storage s refreshed r = refl
count-storage s payload_error r = refl
count-storage s fetch_error r = refl
count-storage s bad_status r = refl

count-one :
    (s : Storage) (res : Result) (r : Refresh)
    → ((count (s, res) r).success + (count (s, res) r).failures ≡ r.success + r.failures + 1)
      × ((count (s, res) r).pending ≡ r.pending)
      × ((count (s, res) r).scans ≡ r.scans)
      × ((count (s, res) r).scans_found ≡ r.scans_found)
unfolding count
count-one s refreshed r = (omega arith, refl, refl, refl)
count-one s payload_error r = (omega arith, refl, refl, refl)
count-one s fetch_error r = (omega arith, refl, refl, refl)
count-one s bad_status r = (omega arith, refl, refl, refl)

module _ (fl : Float64) (settings : Settings fl)
    (rule_refresh : Entry → Option (RuleRefresh fl)) where
  pub data Step : Refresh → Refresh → Type 0 where
    scanned :
        (drawn : fl.F) (now shard pick : ℕ) (r : Refresh)
        → Step r (scan fl settings rule_refresh drawn now shard pick r)
    ended :
        (now p : ℕ) (before after : List ℕ) (fetch : Unpacked → Fetched) (s : Storage)
        (res : Result) (r : Refresh)
        → r.pending ≡ before ++ p ∷ after
        → refresh now p fetch r.storage ≡ some (s, res)
        → Step r (count (s, res) (record r { pending = before ++ after }))
    got :
        (key : ℕ) (fp : Bytes) (r : Refresh)
        → Step r (record r { storage = (get key fp r.storage).0 })
    put :
        (xxh3 : Bytes → ℕ) (now p : ℕ) (r : Refresh)
        → IsNew p r.storage
        → Step r (record r { storage = (set xxh3 now p r.storage).0 })
    removed :
        (p : ℕ) (r : Refresh)
        → map_get (r.storage.entries p).key r.storage ≡ some p
        → Step r (record r { storage = (remove p r.storage).0 })

  pub data Reach (r : Refresh) : Refresh → Type 0 where
    here : Reach r r
    next : {t u : Refresh} → Reach r t → Step t u → Reach r u

  scan-Balanced :
      (drawn : fl.F) (now shard pick : ℕ) (r : Refresh)
      → Balanced r
      → Balanced (scan fl settings rule_refresh drawn now shard pick r)
  unfolding scan
  scan-Balanced drawn now shard pick r b =
      go (found_due fl settings rule_refresh drawn now (rnd shard pick r.storage) r.storage) refl
    where
      go :
          (o : Option ℕ)
          → found_due fl settings rule_refresh drawn now (rnd shard pick r.storage) r.storage ≡ o
          → Balanced (scan fl settings rule_refresh drawn now shard pick r)
      go none e =
          rw (e, scan)
            (record { valid = b.valid; ended = b.ended; scanned = omega (arith, b.scanned) })
      go (some p) e =
          rw (e, scan)
            (record {
              valid = b.valid;
              ended = omega (arith, b.ended);
              scanned = omega (arith, b.scanned);
            })

  Step-Balanced : {r t : Refresh} → Step r t → Balanced r → Balanced t
  Step-Balanced (scanned drawn now shard pick r) b = scan-Balanced drawn now shard pick r b
  Step-Balanced (ended now p before after fetch s res r waits e) b =
      let t = record r { pending = before ++ after } in
      let (sums, pending, scans, found) = count-one s res t in
      record {
        valid = rw (count-storage s res t) (refresh-IsValid now p fetch r.storage s res e b.valid);
        ended =
            rw (pending, found)
              (omega (arith, sums, b.ended, ap length waits, length-delete before p after));
        scanned = rw (scans, found) b.scanned;
      }
  Step-Balanced (got key fp r) b = record {
    valid = get-IsValid key fp r.storage b.valid;
    ended = b.ended;
    scanned = b.scanned;
  }
  Step-Balanced (put xxh3 now p r n) b = record {
    valid = set-IsValid xxh3 now p r.storage n b.valid;
    ended = b.ended;
    scanned = b.scanned;
  }
  Step-Balanced (removed p r e) b = record {
    valid = remove-IsValid p r.storage e b.valid;
    ended = b.ended;
    scanned = b.scanned;
  }

  -- Whatever scans, ends of refreshes, Gets, Sets of new entries and Removes of stored entries happen,
  -- in any order: the storage stays valid, each refresh that was started is counted as a success or
  -- a failure exactly once, or still waits, and there are no more of them than scans.
  pub Reach-Balanced : {r t : Refresh} → Balanced r → Reach r t → Balanced t
  Reach-Balanced b here = b
  Reach-Balanced b (next steps s) = Step-Balanced s (Reach-Balanced b steps)

  is_due-young :
      (drawn : fl.F) (now : ℕ) (o : Option (Settings fl)) (e : Entry)
      → ((st : Settings fl) → o ≡ some st → lt_int (elapsed fl now e) (min_stale fl st) ≡ true)
      → is_due fl drawn now o e ≡ false
  unfolding is_due
  is_due-young drawn now none e young = refl
  is_due-young drawn now (some st) e young = rw (young st refl) refl

  -- A scan that finds an entry whose rule switches the refresh off, or whose age is below the share
  -- of the TTL that its settings give, does nothing but to count itself, whatever is drawn.
  pub scan-young :
      (drawn : fl.F) (now shard pick p : ℕ) (r : Refresh)
      → rnd shard pick r.storage ≡ some p
      → ((st : Settings fl)
          → settings_for fl settings (rule_refresh (r.storage.entries p)) ≡ some st
          → lt_int (elapsed fl now (r.storage.entries p)) (min_stale fl st) ≡ true)
      → scan fl settings rule_refresh drawn now shard pick r ≡ record r { scans = r.scans + 1 }
  unfolding scan
  scan-young drawn now shard pick p r found young =
      let e = r.storage.entries p in
      let none_due : found_due fl settings rule_refresh drawn now (rnd shard pick r.storage)
            r.storage
          ≡ none =
        rw found (
          unfold found_due should_be_refreshed in
          (rw (is_due-young drawn now (settings_for fl settings (rule_refresh e)) e young) refl)) in
      rw (none_due, scan) refl
