-- ===== src/Tests/Backends.antt =====
-- The backends' client and the start of the cluster at concrete inputs.
use adv_cache.Prelude.{ℕ, ◌≡◌, refl, Bool, true, false, some, none, List, [], ◌∷◌}
use adv_cache.Prelude.Int.{pos}
use adv_cache.Model.Binary.{Bytes}
use adv_cache.Model.Entry.{bytes_equal}
use adv_cache.Model.Payload.{Headers}
use adv_cache.Upstream.Slot.{new_backend_slot}
use adv_cache.Upstream.Cluster.{response, count_request}
use adv_cache.Upstream.Backend.{
  HeaderApi, BackendConfig, OutRequest, Client, fetched, out_request, fetch_node,
}
use adv_cache.Upstream.Backend.Filter.{fetch_node-status}
use adv_cache.Upstream.Slot.{probe}
use adv_cache.Upstream.Slot.Move.{quarantine}
use adv_cache.Upstream.Start.{BackendRate, Slots}

-- A header is a status and pairs.
abbrev header_api : HeaderApi
header_api = record {
  H = ℕ × Headers;
  all = λ h. h.1;
  status_code = λ h. h.0;
  reset = λ h. (200, []);
  add = λ k v h. (h.0, (k, v) ∷ h.1);
}

abbrev x_tag : Bytes
x_tag = b'x' ∷ []

abbrev error_header : ℕ × Headers
error_header = (500, (b'y' ∷ [], b'1' ∷ []) ∷ (x_tag, b'2' ∷ []) ∷ [])

abbrev backend : BackendConfig
backend = record {
  id = b'a' ∷ [];
  enabled = true;
  scheme_bytes = b'h' ∷ [];
  host_bytes = b'b' ∷ [];
  timeout = 10;
  max_timeout = 90;
  use_max_timeout_header_bytes = b'm' ∷ [];
  healthcheck_bytes = [];
}

abbrev incoming : OutRequest
incoming = record { scheme = []; host = []; path = b'/' ∷ []; peek = λ k. [] }

abbrev fails : Client header_api
fails r t = some (error_header, b'e' ∷ [])

fetch_node-status_example :
    (h' : ℕ × Headers) × (fetch_node header_api fails backend
        (some (x_tag ∷ []))
        (some incoming)
        none
      ≡ fetched (out_request header_api backend incoming) h' (b'e' ∷ []))
    × (h'.0 ≡ 200)
    × ((count_request (response h'.0) (new_backend_slot (pos 5))).errors
        ≡ (new_backend_slot (pos 5)).errors)
fetch_node-status_example =
    fetch_node-status header_api (λ h. refl) (λ k v h. refl) fails backend x_tag [] incoming none
      error_header (b'e' ∷ []) (new_backend_slot (pos 5)) refl

abbrev two_backends : List BackendRate
two_backends =
    record { id = b'a' ∷ []; enabled = true; rate = pos 5 }
    ∷ record { id = b'b' ∷ []; enabled = true; rate = pos 7 }
    ∷ []

abbrev only_a : Bytes → Bool
only_a id = bytes_equal id (b'a' ∷ [])

abbrev two_slots : Slots
two_slots =
    (b'b' ∷ [], (quarantine 3 (probe false (new_backend_slot (pos 7)))).0)
    ∷ (b'a' ∷ [], probe true (new_backend_slot (pos 5)))
    ∷ []
