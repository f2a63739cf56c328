-- ===== src/Tests/Configs.antt =====
-- A configuration at a concrete input.
use adv_cache.Prelude.{◌≡◌, refl, true, inl, none, some, [], ◌∷◌, All}
use adv_cache.Model.Entry.{bytes_equal}
use adv_cache.Config.{RuleText, BackendText, Upstream, Text, Config, loaded, load_config}
use adv_cache.Config.Rules.{IsConfigured, load_config-IsConfigured}

abbrev rule_text : RuleText
rule_text = record {
  path = b'/' ∷ b'a' ∷ [];
  query = (b'x' ∷ []) ∷ [];
  key_headers = (b'h' ∷ []) ∷ (b'h' ∷ []) ∷ [];
  value_headers = (b'v' ∷ []) ∷ [];
}

abbrev backend_text : BackendText
backend_text = record {
  id = b'1' ∷ [];
  enabled = true;
  scheme = b'h' ∷ [];
  host = b'b' ∷ [];
  timeout = 10;
  max_timeout = 90;
  use_max_timeout_header = [];
  healthcheck = [];
}

abbrev upstream : Upstream
upstream = record { cluster = some (backend_text ∷ []); backend = none }

abbrev text : Text
text = record {
  enabled = true;
  rules = rule_text ∷ record rule_text { path = b'/' ∷ [] } ∷ [];
  upstream = some upstream;
}

load_config-IsConfigured_example :
    (c : Config) × (load_config (some text) ≡ loaded c)
    × (c.atomic_enabled ≡ true)
    × All (IsConfigured c.rules) text.rules
unfolding bytes_equal
load_config-IsConfigured_example =
    load_config-IsConfigured text upstream refl (inl (λ q. cc q)) ((refl, tt), (tt, tt))
