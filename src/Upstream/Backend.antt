-- ===== src/Upstream/Backend.antt =====
-- The HTTP client of one backend (pkg/upstream/backend.go). fasthttp's response header and the
-- client are parameters; a request is what the code sets on it or reads from it. Strings are bytes;
-- the virtual byte fields of the configuration hold the bytes of the strings. The first argument of
-- a fetch is the rule's CacheValue.HeadersMap, by its keys: `none` is a nil rule.
pub mod Filter
use adv_cache.Prelude.{
  ℕ, Bool, true, false, ◌||◌, Option, none, some, List, [], ◌∷◌, ltb, length, if◌then◌else◌, ◌==◌,
}
use adv_cache.Model.Binary.{Bytes}
use adv_cache.Model.Entry.{bytes_equal}
use adv_cache.Model.Payload.{Headers}

-- fasthttp.ResponseHeader, by the methods that are called.
pub record HeaderApi : Type 1 where
  pub H : Type 0
  pub all : H → Headers
  pub status_code : H → ℕ
  pub reset : H → H
  pub add : Bytes → Bytes → H → H

-- config.Backend
pub record BackendConfig : Type 0 where
  pub id : Bytes
  pub enabled : Bool
  pub scheme_bytes : Bytes
  pub host_bytes : Bytes
  pub timeout : ℕ
  pub max_timeout : ℕ
  pub use_max_timeout_header_bytes : Bytes
  pub healthcheck_bytes : Bytes

-- The request that is sent: URI and Header.PeekBytes.
pub record OutRequest : Type 0 where
  pub scheme : Bytes
  pub host : Bytes
  pub path : Bytes
  pub peek : Bytes → Bytes

unfoldable pub contains : List Bytes → Bytes → Bool
unfolding bytes_equal
contains [] k = false
contains (a ∷ allowed) k = bytes_equal a k || contains allowed k

-- The pairs whose key is in the map, in their order.
unfoldable pub keep_headers : List Bytes → Headers → Headers
unfolding contains
keep_headers allowed [] = []
keep_headers allowed ((k, v) ∷ rest) =
    if contains allowed k then (k, v) ∷ keep_headers allowed rest else keep_headers allowed rest

module _ (api : HeaderApi) where
  open api use {H, all, status_code, reset, add}

  unfoldable pub add_headers : Headers → H → H
  add_headers [] h = h
  add_headers ((k, v) ∷ rest) h = add_headers rest (add k v h)

  unfoldable pub filter_headers : Option (List Bytes) → H → H
  unfolding add_headers
  filter_headers none h = h
  filter_headers (some []) h = h
  filter_headers (some (a ∷ allowed)) h = add_headers (keep_headers (a ∷ allowed) (all h)) (reset h)

  -- DoTimeout: an error, or the header and the body of the response.
  abbrev pub Client : Type 0
  Client = OutRequest → ℕ → Option (H × Bytes)

  -- What `Fetch` returns; `no_request` is the nil pointer behind both arguments.
  pub data Fetched : Type 0 where
    no_request : Fetched
    failed : Fetched
    fetched : OutRequest → H → Bytes → Fetched

  unfoldable pub out_request : BackendConfig → OutRequest → OutRequest
  out_request cfg r = record r { scheme = cfg.scheme_bytes; host = cfg.host_bytes }

  unfoldable pub timeout_for : BackendConfig → OutRequest → ℕ
  timeout_for cfg r =
      if ltb 0 (length (r.peek cfg.use_max_timeout_header_bytes))
      then cfg.max_timeout
      else cfg.timeout

  unfoldable pub answered : Option (List Bytes) → OutRequest → Option (H × Bytes) → Fetched
  answered rule r none = failed
  answered rule r (some (h, body)) = fetched r (filter_headers rule h) body

  unfoldable pub send : Client → BackendConfig → Option (List Bytes) → OutRequest → Fetched
  unfolding out_request timeout_for answered
  send client cfg rule r =
      let q = out_request cfg r in answered rule q (client q (timeout_for cfg q))

  -- The copy is of the context's request if there is a context, or else of the given one.
  unfoldable pub fetch_node :
      Client → BackendConfig → Option (List Bytes) → Option OutRequest → Option OutRequest → Fetched
  unfolding send
  fetch_node client cfg rule (some ctx) in_req = send client cfg rule ctx
  fetch_node client cfg rule none (some r) = send client cfg rule r
  fetch_node client cfg rule none none = no_request

  -- What IsHealthy returns: nil, the error of the client, or ErrNotHealthyStatusCode.
  pub data Health : Type 0 where
    healthy client_error not_healthy_status_code : Health

  unfoldable pub health_of : Option (H × Bytes) → Health
  health_of none = client_error
  health_of (some (h, body)) = if status_code h == 200 then healthy else not_healthy_status_code

  unfoldable pub is_healthy : Client → BackendConfig → Health
  unfolding health_of
  is_healthy client cfg = health_of (
      client
        (record {
          scheme = cfg.scheme_bytes;
          host = cfg.host_bytes;
          path = cfg.healthcheck_bytes;
          peek = λ k. [];
        })
        cfg.timeout)
