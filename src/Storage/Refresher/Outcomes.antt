-- ===== src/Storage/Refresher/Outcomes.antt =====
-- What a refresh does to the storage (pkg/storage/lru/refresher.go).
use adv_cache.Prelude.{
  ℕ, ◌≡◌, ◌≢◌, refl, true, Bool-cases, Option, none, some, inl, inr, arith, ◌==◌, update,
}
use adv_cache.Model.Payload.{
  Request, Response, Unpacked, PayloadResult, unpacked, payload_is_empty, payload, set_payload,
}
use adv_cache.Model.Payload.RoundTrip.{Packable, payload-set_payload}
use adv_cache.Storage.{Storage}
use adv_cache.Storage.Valid.{IsValid}
use adv_cache.Storage.Valid.Moves.{Alike, Linked-Alike}
use adv_cache.Storage.Refresher.{
  Fetched, failed, fetched, Result, refreshed, store_fetched, refresh_payload, refresh,
}

-- A refresh that succeeds: the time of the entry is now, and nothing changes but its payload.
pub record Renewed (now p : ℕ) (s t : Storage) : Type 0 where
  pub others : (q : ℕ) → p ≢ q → t.entries q ≡ s.entries q
  pub stamped : (t.entries p).refreshed_at ≡ now
  pub key : (t.entries p).key ≡ (s.entries p).key
  pub shard : (t.entries p).shard ≡ (s.entries p).shard
  pub fingerprint : (t.entries p).fingerprint ≡ (s.entries p).fingerprint
  pub pointer : (t.entries p).lru_list_elem ≡ (s.entries p).lru_list_elem
  pub shards : t.shards ≡ s.shards
  pub lru : t.lru ≡ s.lru

abbrev pub written : ℕ → ℕ → Request → Response → Storage → Storage
written now p req resp s = record s {
  entries = update s.entries p (set_payload now req resp (s.entries p));
}

at-written :
    (now p : ℕ) (req : Request) (resp : Response) (s : Storage)
    → (written now p req resp s).entries p ≡ set_payload now req resp (s.entries p)
at-written now p req resp s = let own : (p == p) ≡ true = ground arith in rw own refl

Renewed-written :
    (now p : ℕ) (req : Request) (resp : Response) (s : Storage)
    → Renewed now p s (written now p req resp s)
unfolding set_payload
Renewed-written now p req resp s =
    let own : (p == p) ≡ true = ground arith in
    record {
      others = λ q h. ground (arith, h);
      stamped = rw own refl;
      key = rw own refl;
      shard = rw own refl;
      fingerprint = rw own refl;
      pointer = rw own refl;
      shards = refl;
      lru = refl;
    }

-- An entry whose payload unpacks, and for which the upstream answers with status 200 and a response
-- that can be packed: the refresh succeeds, the entry has the payload of the answer and the new
-- time, its key, fingerprint and place in the LRU list stay, and so do the other entries, the map
-- with its counters, and the LRU lists.
pub refresh-Renewed :
    (now p : ℕ) (fetch : Unpacked → Fetched) (u : Unpacked) (req : Request) (resp : Response)
    (s : Storage)
    → payload (s.entries p) ≡ some (unpacked u)
    → fetch u ≡ fetched req resp
    → resp.status ≡ 200
    → Packable req resp
    → (t : Storage) × (refresh now p fetch s ≡ some (t, refreshed))
      × Renewed now p s t
      × (payload (t.entries p)
          ≡ some (
              unpacked (record {
                path = req.path;
                query = req.query;
                query_headers = req.headers;
                status = resp.status;
                headers = resp.headers;
                body = resp.body;
              })))
unfolding refresh refresh_payload store_fetched set_payload
refresh-Renewed now p fetch u req resp s readable answer good fits =
    let ok : (resp.status == 200) ≡ true = ground arith in
    (
      written now p req resp s,
      rw (readable, refresh_payload) (rw (answer, store_fetched) (rw ok refl)),
      Renewed-written now p req resp s,
      rw (at-written now p req resp s) (payload-set_payload now req resp (s.entries p) fits),
    )

-- Any other end of a refresh leaves the storage as it is: an error of the payload, of the fetch, or
-- of the status.
pub refresh-keeps :
    (now p : ℕ) (fetch : Unpacked → Fetched) (s t : Storage) (r : Result)
    → refresh now p fetch s ≡ some (t, r)
    → r ≢ refreshed
    → t ≡ s
unfolding refresh refresh_payload store_fetched
refresh-keeps now p fetch s t r e ne = ground arith

written-Alike :
    (now p : ℕ) (req : Request) (resp : Response) (s : Storage) → Alike s (written now p req resp s)
unfolding set_payload
written-Alike now p req resp s = record {
  key = λ q. ground arith;
  shard = λ q. ground arith;
  pointer = λ q. ground arith;
  shards = refl;
  values = λ j. refl;
}

pub written-IsValid :
    (now p : ℕ) (req : Request) (resp : Response) (s : Storage)
    → IsValid s
    → IsValid (written now p req resp s)
written-IsValid now p req resp s v = record {
  order = v.order;
  linked =
      Linked-Alike (written-Alike now p req resp s) v.linked.holds v.linked.named (λ j a m. m)
        (λ j a m. m) v.linked;
}

store_fetched-IsValid :
    (now p : ℕ) (f : Fetched) (s : Storage) → IsValid s → IsValid (store_fetched now p f s).0
unfolding store_fetched
store_fetched-IsValid now p failed s v = v
store_fetched-IsValid now p (fetched req resp) s v = elim (Bool-cases (resp.status == 200)) [
  | inl ok ↦ rw ok (written-IsValid now p req resp s v)
  | inr other ↦ rw other v
]

refresh_payload-IsValid :
    (now p : ℕ) (fetch : Unpacked → Fetched) (o : Option PayloadResult) (s t : Storage) (r : Result)
    → refresh_payload now p fetch o s ≡ some (t, r)
    → IsValid s
    → IsValid t
unfolding refresh_payload
refresh_payload-IsValid now p fetch none s t r e v = cc
refresh_payload-IsValid now p fetch (some payload_is_empty) s t r e v =
    let q : s ≡ t = cc in rw q at v
refresh_payload-IsValid now p fetch (some (unpacked u)) s t r e v =
    let q : (store_fetched now p (fetch u) s).0 ≡ t = cc in
    rw q at (store_fetched-IsValid now p (fetch u) s v)

-- A refresh keeps the storage valid, however it ends.
pub refresh-IsValid :
    (now p : ℕ) (fetch : Unpacked → Fetched) (s t : Storage) (r : Result)
    → refresh now p fetch s ≡ some (t, r)
    → IsValid s
    → IsValid t
unfolding refresh
refresh-IsValid now p fetch s t r e v =
    refresh_payload-IsValid now p fetch (payload (s.entries p)) s t r e v
