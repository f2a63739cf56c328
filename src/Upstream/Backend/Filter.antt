-- ===== src/Upstream/Backend/Filter.antt =====
-- What the filter of the response's headers leaves (pkg/upstream/backend.go: filterHeaders). The
-- hypotheses are what fasthttp documents of Reset and Add.
use adv_cache.Prelude.{◌≡◌, refl, ◌∙◌, true, Bool-cases, inl, inr, ◌⊎◌, Option, some, List, [], ◌∷◌}
use adv_cache.Model.Binary.{Bytes}
use adv_cache.Model.Payload.{Headers}
use adv_cache.Upstream.Slot.{Slot}
use adv_cache.Upstream.Cluster.{response, count_request}
use adv_cache.Upstream.Backend.{
  HeaderApi, BackendConfig, OutRequest, contains, keep_headers, add_headers, filter_headers, Client,
  fetched, out_request, timeout_for, answered, fetch_node,
}

-- The pair stands among the headers.
abbrev pub Has : Bytes × Bytes → Headers → Type 0
Has x [] = ⊥
Has x (y ∷ hs) = (x ≡ y) ⊎ Has x hs

keep_headers-Has :
    (allowed : List Bytes) (hs : Headers) (x : Bytes × Bytes)
    → Has x (keep_headers allowed hs)
    → (contains allowed x.0 ≡ true) × Has x hs
unfolding keep_headers
keep_headers-Has allowed [] x m = elim m [ ]
keep_headers-Has allowed ((k, v) ∷ hs) x m = elim (Bool-cases (contains allowed k)) [
  | inl on ↦ first (keep_headers-Has allowed hs x) on (rw on at m)
  | inr off ↦ let (c, h) = keep_headers-Has allowed hs x (rw off at m) in (c, inr h)
]
  where
    first :
        (Has x (keep_headers allowed hs) → (contains allowed x.0 ≡ true) × Has x hs)
        → contains allowed k ≡ true
        → Has x ((k, v) ∷ keep_headers allowed hs)
        → (contains allowed x.0 ≡ true) × Has x ((k, v) ∷ hs)
    first ih on (inl q) = (rw q on, inl q)
    first ih on (inr r) = let (c, h) = ih r in (c, inr h)

module _ (api : HeaderApi) where
  open api use {H, all, status_code, reset, add}

  module _
      (add_only : (k v : Bytes) (h : H) (x : Bytes × Bytes)
        → Has x (all (add k v h))
        → (x ≡ (k, v)) ⊎ Has x (all h)) where
    add_headers-Has :
        (hs : Headers) (h : H) (x : Bytes × Bytes)
        → Has x (all (add_headers api hs h))
        → Has x hs ⊎ Has x (all h)
    unfolding add_headers
    add_headers-Has [] h x m = inr m
    add_headers-Has ((k, v) ∷ hs) h x m = elim (add_headers-Has hs (add k v h) x m) [
      | inl r ↦ inl (inr r)
      | inr r ↦ elim (add_only k v h x r) [ inl q ↦ inl (inl q) | inr o ↦ inr o ]
    ]

    -- If Add adds nothing but its pair, then under a rule with headers to keep every header of the
    -- filtered response is a header of the backend's response with a key of the rule, or one that a
    -- reset header has of itself.
    pub filter_headers-Has :
        (a : Bytes) (allowed : List Bytes) (h : H) (x : Bytes × Bytes)
        → Has x (all (filter_headers api (some (a ∷ allowed)) h))
        → ((contains (a ∷ allowed) x.0 ≡ true) × Has x (all h)) ⊎ Has x (all (reset h))
    unfolding filter_headers
    filter_headers-Has a allowed h x m =
        elim (add_headers-Has (keep_headers (a ∷ allowed) (all h)) (reset h) x m) [
          | inl r ↦ inl (keep_headers-Has (a ∷ allowed) (all h) x r)
          | inr o ↦ inr o
        ]

  module _ (reset_status : (h : H) → status_code (reset h) ≡ 200)
      (add_status : (k v : Bytes) (h : H) → status_code (add k v h) ≡ status_code h) where
    add_headers-status : (hs : Headers) (h : H) → status_code (add_headers api hs h) ≡ status_code h
    unfolding add_headers
    add_headers-status [] h = refl
    add_headers-status ((k, v) ∷ hs) h = add_headers-status hs (add k v h) ∙ add_status k v h

    -- If the status of a reset header is 200, and Add keeps the status, then under a rule with
    -- headers to keep every answer of the backend, whatever its status, is returned with status
    -- 200, and is not counted as an error of the backend.
    pub fetch_node-status :
        (client : Client api) (cfg : BackendConfig) (a : Bytes) (allowed : List Bytes)
        (ctx : OutRequest) (in_req : Option OutRequest) (h : H) (body : Bytes) (s : Slot)
        → client (out_request api cfg ctx) (timeout_for api cfg (out_request api cfg ctx))
          ≡ some (h, body)
        → (h' : H) × (fetch_node api client cfg (some (a ∷ allowed)) (some ctx) in_req
            ≡ fetched (out_request api cfg ctx) h' body)
          × (status_code h' ≡ 200)
          × ((count_request (response (status_code h')) s).errors ≡ s.errors)
    fetch_node-status client cfg a allowed ctx in_req h body s e =
        let h' = filter_headers api (some (a ∷ allowed)) h in
        let ok : status_code h' ≡ 200 =
          unfold filter_headers in
          (add_headers-status (keep_headers (a ∷ allowed) (all h)) (reset h) ∙ reset_status h) in
        (h', unfold fetch_node in (rw (e, answered) refl), ok, rw ok (unfold count_request in refl))
