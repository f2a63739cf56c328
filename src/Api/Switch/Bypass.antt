-- ===== src/Api/Switch/Bypass.antt =====
-- What the switch changes for the requests (internal/cache/api/on_off.go, internal/cache/api/cache.go).
use adv_cache.Prelude.{
  ℕ, ◌+◌, ◌≡◌, refl, arith, Option, List, [], ◌∷◌, length, true, false, suc, ap, ◌∙◌,
}
use adv_cache.Model.Binary.{Bytes}
use adv_cache.Model.Entry.{Entry}
use adv_cache.Api.Proxy.{Controller, Fetched, through_proxy, serve}
use adv_cache.Api.Switch.{set_enabled, on, off}

-- What comes in: what NewEntry returns, and the answers of the two fetches.
pub record Incoming : Type 0 where
  pub entry : Option Entry
  pub first : Fetched
  pub second : Fetched

module _ (xxh3 : Bytes → ℕ) (now : ℕ) where
  abbrev pub serve_all : List Incoming → Controller → Controller
  serve_all [] c = c
  serve_all (r ∷ rs) c = serve_all rs (serve xxh3 now r.entry r.first r.second c).0

  -- The controller after `n` more requests, all of them proxied.
  abbrev past : ℕ → Controller → Controller
  past n c = record c { total = c.total + n; proxied = c.proxied + n }

  serve-disabled :
      (r : Incoming) (c : Controller)
      → c.enabled ≡ false
      → (serve xxh3 now r.entry r.first r.second c).0 ≡ past 1 c
  unfolding serve through_proxy
  serve-disabled r c h = ground arith

  past-past : (n : ℕ) (c : Controller) → past n (past 1 c) ≡ past (suc n) c
  past-past n c = ground arith

  serve_all-disabled :
      (rs : List Incoming) (c : Controller)
      → c.enabled ≡ false
      → serve_all rs c ≡ past (length rs) c
  serve_all-disabled [] c h = ground arith
  serve_all-disabled (r ∷ rs) c h =
      ap (serve_all rs) (serve-disabled r c h)
      ∙ (serve_all-disabled rs (past 1 c) h ∙ past-past (length rs) c)

  -- Switched off, the cache is neither read nor written: any requests, the switch back on included,
  -- leave the storage and the hits and misses as they were, and count each request as proxied.
  pub serve_all-off :
      (rs : List Incoming) (c : Controller)
      → (on (serve_all rs (off c).0)).0
        ≡ record c { enabled = true; total = c.total + length rs; proxied = c.proxied + length rs }
  unfolding on off set_enabled
  serve_all-off rs c = ap (set_enabled true) (serve_all-disabled rs (off c).0 refl)
