-- ===== src/Api/Proxy/Fresh.antt =====
-- A miss and then a hit (internal/cache/api/cache.go).
use adv_cache.Prelude.{
  ℕ, ◌+◌, ◌≡◌, refl, sym, ◌∙◌, ap, true, Option, none, some, arith, ◌==◌, update,
}
use adv_cache.Model.Binary.{Bytes}
use adv_cache.Model.Entry.{Entry, payload_bytes, is_same_fingerprint}
use adv_cache.Model.Payload.{Request, Response, payload, Unpacked, set_payload}
use adv_cache.Model.Payload.RoundTrip.{Packable, payload-set_payload}
use adv_cache.Storage
use adv_cache.Storage.{Storage, map_get}
use adv_cache.Storage.Hits.{get-map_get}
use adv_cache.Storage.Stored.{Stored, set-Stored, get-miss, entries-get}
use adv_cache.Api.Proxy.{
  Controller, Fetched, fetched, from_response, on_miss, on_found, handle_trough_cache, finish,
  serve,
}
use adv_cache.Api.Proxy.Replies.{asked, serve-hit}

-- The storage when the fetched response has been packed into the new entry.
abbrev pub filled : ℕ → Request → Response → Entry → Controller → Storage
filled now req resp e c =
    let s = asked e c in
    let p = c.next_entry in
    record s { entries = update s.entries p (set_payload now req resp (s.entries p)) }

-- The controller after a miss that has been stored.
abbrev pub after_miss : (Bytes → ℕ) → ℕ → Request → Response → Entry → Controller → Controller
after_miss xxh3 now req resp e c = record c {
  total = c.total + 1;
  misses = c.misses + 1;
  next_entry = c.next_entry + 1;
  cache = (Storage.set xxh3 now c.next_entry (filled now req resp e c)).0;
}

serve-miss :
    (xxh3 : Bytes → ℕ) (now : ℕ) (e : Entry) (req : Request) (resp : Response) (f : Fetched)
    (c : Controller)
    → c.enabled ≡ true
    → (Storage.get e.key e.fingerprint (asked e c)).1 ≡ none
    → resp.status ≡ 200
    → (serve xxh3 now (some e) (fetched req resp) f c).0 ≡ after_miss xxh3 now req resp e c
unfolding serve handle_trough_cache on_found on_miss finish
serve-miss xxh3 now e req resp f c on miss ok =
    let same = get-miss e.key e.fingerprint (asked e c) miss in
    let is_ok : (resp.status == 200) ≡ true = ground arith in
    rw on (rw (miss, on_found) (rw is_ok (rw same refl)))

filled-entry :
    (now : ℕ) (req : Request) (resp : Response) (e : Entry) (c : Controller)
    → (filled now req resp e c).entries c.next_entry ≡ set_payload now req resp e
filled-entry now req resp e c = ground arith

asked-Stored :
    (d : Entry) (e : Entry) (p : ℕ) (c : Controller)
    → c.next_entry ≡ p + 1
    → Stored d p c.cache
    → Stored d p (asked e c)
unfolding map_get
asked-Stored d e p c n s = record {
  found = s.found;
  fingerprint = ground (arith, s.fingerprint);
  payload = ground (arith, s.payload);
  refreshed_at = ground (arith, s.refreshed_at);
}

-- An entry's payload is read from its buffer only.
pub payload_same : (a b : Entry) → a.payload ≡ b.payload → payload a ≡ payload b
unfolding payload payload_bytes
payload_same a b h = rw h refl

get_found-filled :
    (fp : Bytes) (o : Option ℕ) (now : ℕ) (req : Request) (resp : Response) (e : Entry)
    (c : Controller)
    → (Storage.get_found fp o (asked e c)).1 ≡ none
    → (Storage.get_found fp o (filled now req resp e c)).1 ≡ none
unfolding Storage.get_found is_same_fingerprint set_payload
get_found-filled fp none now req resp e c m = refl
get_found-filled fp (some q) now req resp e c m = ground arith

set-filled-Stored :
    (xxh3 : Bytes → ℕ) (now : ℕ) (e : Entry) (req : Request) (resp : Response) (c : Controller)
    → (Storage.get e.key e.fingerprint (asked e c)).1 ≡ none
    → (Storage.set xxh3 now c.next_entry (filled now req resp e c)).1 ≡ true
    → Stored
        (set_payload now req resp e)
        c.next_entry
        (Storage.set xxh3 now c.next_entry (filled now req resp e c)).0
unfolding Storage.get map_get set_payload
set-filled-Stored xxh3 now e req resp c miss ok =
    let s = filled now req resp e c in
    let at_p = filled-entry now req resp e c in
    let m = get_found-filled e.fingerprint (map_get e.key s) now req resp e c miss in
    rw at_p at (set-Stored xxh3 now c.next_entry s (rw at_p m) ok)

-- What is read back from the packed pair.
abbrev pub view : Request → Response → Unpacked
view req resp = record {
  path = req.path;
  query = req.query;
  query_headers = req.headers;
  status = resp.status;
  headers = resp.headers;
  body = resp.body;
}

-- With the cache enabled, a request that the storage does not find, that the upstream answers with
-- status 200 and a response that can be packed, and whose new entry the storage accepts: a next
-- request of the same key and fingerprint is answered with the status, the headers and the body of
-- that response and the time of the first request, whatever the upstream would answer then.
pub serve-serve :
    (xxh3 : Bytes → ℕ) (now later : ℕ) (e e' : Entry) (req : Request) (resp : Response)
    (f2 f3 f4 : Fetched) (c : Controller)
    → c.enabled ≡ true
    → (Storage.get e.key e.fingerprint (asked e c)).1 ≡ none
    → resp.status ≡ 200
    → Packable req resp
    → (Storage.set xxh3 now c.next_entry (filled now req resp e c)).1 ≡ true
    → e'.key ≡ e.key
    → e'.fingerprint ≡ e.fingerprint
    → (serve xxh3 later (some e') f3 f4 (serve xxh3 now (some e) (fetched req resp) f2 c).0).1
      ≡ from_response 200 resp.headers resp.body now
unfolding set_payload
serve-serve xxh3 now later e e' req resp f2 f3 f4 c on miss ok p accepted k fp =
    let c1 = after_miss xxh3 now req resp e c in
    let st = set-filled-Stored xxh3 now e req resp c miss accepted in
    let a = asked-Stored (set_payload now req resp e) e' c.next_entry c1 refl st in
    let hit =
      get-map_get e'.key e'.fingerprint c.next_entry (asked e' c1)
        (ap (λ (x : ℕ). map_get x (asked e' c1)) k ∙ a.found) (a.fingerprint ∙ sym fp) in
    let same = entries-get e'.key e'.fingerprint (asked e' c1) in
    let read =
      payload_same ((asked e' c1).entries c.next_entry) (set_payload now req resp e) a.payload
      ∙ payload-set_payload now req resp e p in
    let answer =
      serve-hit xxh3 later c.next_entry e' (view req resp) f3 f4 c1 on hit (rw same read) in
    let q = (Storage.get e'.key e'.fingerprint (asked e' c1)).0.entries c.next_entry in
    let time : q.refreshed_at ≡ now = rw same a.refreshed_at in
    rw (serve-miss xxh3 now e req resp f2 c on miss ok) (
      answer.0
      ∙ ap (λ (st : ℕ). from_response st resp.headers resp.body q.refreshed_at) ok
      ∙ ap (λ (t : ℕ). from_response 200 resp.headers resp.body t) time)
