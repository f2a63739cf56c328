-- ===== src/Api/Switch.antt =====
-- The switch of the cache (internal/cache/api/on_off.go) on the configuration's AtomicEnabled
-- (pkg/config/config.go), as the main handler reads it.
pub mod Bypass
use adv_cache.Prelude.{ℕ, Bool, true, false}
use adv_cache.Api.Proxy.{Controller}

-- onOffStatusResponse, with the status and without its fixed texts.
pub record Status : Type 0 where
  pub code : ℕ
  pub enabled : Bool

unfoldable pub set_enabled : Bool → Controller → Controller
set_enabled v c = record c { enabled = v }

unfoldable pub on : Controller → Controller × Status
unfolding set_enabled
on c = (set_enabled true c, record { code = 200; enabled = true })

unfoldable pub off : Controller → Controller × Status
unfolding set_enabled
off c = (set_enabled false c, record { code = 200; enabled = false })
