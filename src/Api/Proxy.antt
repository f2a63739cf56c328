-- ===== src/Api/Proxy.antt =====
-- The main handler (internal/cache/api/cache.go) with the responder (pkg/http/responder/resp.go).
-- What NewEntry makes of the request and what the upstream answers are arguments; each new entry
-- takes a fresh address. `panics` is a run-time panic of the handler. Logging is left out.
pub mod Replies
pub mod Fresh
use adv_cache.Prelude.{ℕ, ◌+◌, Bool, true, false, Option, none, some, ◌==◌, if◌then◌else◌, update}
use adv_cache.Model.Binary.{Bytes}
use adv_cache.Model.Entry.{Entry}
use adv_cache.Model.Payload.{
  Headers, Request, Response, set_payload, payload, PayloadResult, unpacked, payload_is_empty,
}
use adv_cache.Storage
use adv_cache.Storage.{Storage}

pub record Controller : Type 0 where
  pub cache : Storage
  pub enabled : Bool
  pub next_entry : ℕ
  pub total : ℕ
  pub hits : ℕ
  pub misses : ℕ
  pub proxied : ℕ
  pub errered : ℕ

-- upstream.Fetch: an error, or the request that was sent and the response.
pub data Fetched : Type 0 where
  failed : Fetched
  fetched : Request → Response → Fetched

-- What the client gets: the header, the status and the body of a response with the time of the
-- last refresh, or 503.
pub data Reply : Type 0 where
  from_response : ℕ → Headers → Bytes → ℕ → Reply
  unavailable : Reply
  panics : Reply

-- What `handleTroughCache` ends with.
pub data Outcome : Type 0 where
  replied : Reply → Outcome
  need_retry_through_proxy : Outcome
  fetch_error : Outcome

-- FromEntry
abbrev pub from_entry : Option PayloadResult → ℕ → Outcome
from_entry none refreshed_at = replied panics
from_entry (some payload_is_empty) refreshed_at = need_retry_through_proxy
from_entry (some (unpacked u)) refreshed_at =
    replied (from_response u.status u.headers u.body refreshed_at)

abbrev pub proxy_reply : Fetched → Reply
proxy_reply failed = unavailable
proxy_reply (fetched req resp) = from_response resp.status resp.headers resp.body 0

-- handleTroughProxy
unfoldable pub through_proxy : Fetched → Controller → Controller × Reply
through_proxy f c = (record c { proxied = c.proxied + 1 }, proxy_reply f)

-- What `Index` does with the outcome; the second fetch is the one through the proxy.
unfoldable pub finish : Fetched → Controller × Outcome → Controller × Reply
finish f (c, replied r) = (c, r)
finish f (c, need_retry_through_proxy) = through_proxy f c
finish f (c, fetch_error) = (record c { errered = c.errered + 1 }, unavailable)

-- FromResponse(ctx, resp, entry.RefreshedAt()), where the variable `entry` is an address or nil.
abbrev pub respond_fetched : Response → Option ℕ → Storage → Outcome
respond_fetched resp none s = replied panics
respond_fetched resp (some p) s =
    replied (from_response resp.status resp.headers resp.body (s.entries p).refreshed_at)

module _ (xxh3 : Bytes → ℕ) (now : ℕ) where
  -- The branch of a miss, with the requested entry at the address `p`. Get has left nil in the
  -- variable `entry`, and it is assigned where the response is stored.
  unfoldable pub on_miss : Fetched → ℕ → Controller → Controller × Outcome
  on_miss failed p c = (record c { misses = c.misses + 1 }, fetch_error)
  on_miss (fetched req resp) p c =
      let s = c.cache in
      let stored = record s {
        entries = update s.entries p (set_payload now req resp (s.entries p));
      } in
      let positive = resp.status == 200 in
      let cache = if positive then (Storage.set xxh3 now p stored).0 else s in
      let entry = if positive then some p else none in
      (record c { misses = c.misses + 1; cache = cache }, respond_fetched resp entry cache)

  unfoldable pub on_found : Option ℕ → Fetched → ℕ → Controller → Controller × Outcome
  on_found none f p c = on_miss f p c
  on_found (some q) f p c =
      let e = c.cache.entries q in
      (record c { hits = c.hits + 1 }, from_entry (payload e) e.refreshed_at)

  -- The first argument is what NewEntry returns, nothing if no rule has the path.
  unfoldable pub handle_trough_cache : Option Entry → Fetched → Controller → Controller × Outcome
  handle_trough_cache none f c = (c, need_retry_through_proxy)
  handle_trough_cache (some e) f c =
      let p = c.next_entry in
      let s = record c.cache { entries = update c.cache.entries p e } in
      let (s', found) = Storage.get e.key e.fingerprint s in
      on_found found f p (record c { cache = s'; next_entry = p + 1 })

  unfoldable pub serve : Option Entry → Fetched → Fetched → Controller → Controller × Reply
  serve e f1 f2 c =
      let t = record c { total = c.total + 1 } in
      if c.enabled then finish f2 (handle_trough_cache e f1 t) else through_proxy f2 t
