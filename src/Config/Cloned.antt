-- ===== src/Config/Cloned.antt =====
-- What a clone of a backend's configuration does to its requests (pkg/config/config.go: Clone).
use adv_cache.Prelude.{◌≡◌, arith}
use adv_cache.Upstream.Backend.{HeaderApi, BackendConfig, OutRequest, timeout_for}
use adv_cache.Config.{clone}

-- Under a clone every request has the regular timeout, whether it carries the header or not.
timeout_for-clone :
    (api : HeaderApi) (b : BackendConfig) (r : OutRequest) → timeout_for api (clone b) r ≡ b.timeout
unfolding timeout_for clone
timeout_for-clone api b r = ground arith
