-- ===== src/Config.antt =====
-- The configuration (pkg/config/config.go: LoadConfig, Clone), as far as the other parts read it. What
-- is read and unmarshalled from the file is an argument, in which the virtual fields are empty;
-- strings are bytes. The file is not empty and has no null rule or backend. A Go map is listed in the
-- order in which its keys came.
pub mod Rules
pub mod Cloned
use adv_cache.Prelude.{ℕ, Bool, Option, none, some, List, [], ◌∷◌, ◌++◌, map, if◌then◌else◌}
use adv_cache.Model.Binary.{Bytes}
use adv_cache.Model.Entry.{Rule}
use adv_cache.Upstream.Backend.{BackendConfig, contains}

-- A rule and its path in the file.
pub record RuleText : Type 0 where
  pub path : Bytes
  pub query : List Bytes
  pub key_headers : List Bytes
  pub value_headers : List Bytes

pub record BackendText : Type 0 where
  pub id : Bytes
  pub enabled : Bool
  pub scheme : Bytes
  pub host : Bytes
  pub timeout : ℕ
  pub max_timeout : ℕ
  pub use_max_timeout_header : Bytes
  pub healthcheck : Bytes

pub record Upstream : Type 0 where
  pub cluster : Option (List BackendText)
  pub backend : Option BackendText

pub record Text : Type 0 where
  pub enabled : Bool
  pub rules : List RuleText
  pub upstream : Option Upstream

-- A rule with the keys of CacheValue.HeadersMap.
pub record LoadedRule : Type 0 where
  pub rule : Rule
  pub allowed : List Bytes

pub data Backends : Type 0 where
  cluster : List BackendConfig → Backends
  single : BackendConfig → Backends

pub record Config : Type 0 where
  pub atomic_enabled : Bool
  pub rules : List LoadedRule
  pub backends : Backends

-- An error of the file, "no backend configured", or a nil pointer behind Upstream.
pub data Loaded : Type 0 where
  not_read no_backend_configured panics : Loaded
  loaded : Config → Loaded

-- An assignment to a map, by its keys.
unfoldable pub add_key : List Bytes → Bytes → List Bytes
unfolding contains
add_key keys k = if contains keys k then keys else keys ++ (k ∷ [])

unfoldable pub keys_of : List Bytes → List Bytes → List Bytes
unfolding add_key
keys_of keys [] = keys
keys_of keys (h ∷ headers) = keys_of (add_key keys h) headers

unfoldable pub load_rule : RuleText → LoadedRule
unfolding keys_of
load_rule t = record {
  rule = record { path_bytes = t.path; query_bytes = t.query; headers = keys_of [] t.key_headers };
  allowed = keys_of [] t.value_headers;
}

unfoldable pub load_backend : BackendText → BackendConfig
load_backend b = record {
  id = b.id;
  enabled = b.enabled;
  scheme_bytes = b.scheme;
  host_bytes = b.host;
  timeout = b.timeout;
  max_timeout = b.max_timeout;
  use_max_timeout_header_bytes = b.use_max_timeout_header;
  healthcheck_bytes = b.healthcheck;
}

unfoldable pub load_backends : Bool → List LoadedRule → Upstream → Loaded
unfolding load_backend
load_backends enabled rules u = elim u.cluster [
  | some bs ↦
      loaded (record {
        atomic_enabled = enabled;
        rules = rules;
        backends = cluster (map load_backend bs);
      })
  | none ↦ elim u.backend [
    | some b ↦
        loaded
          (record { atomic_enabled = enabled; rules = rules; backends = single (load_backend b) })
    | none ↦ no_backend_configured
  ]
]

unfoldable pub load_config : Option Text → Loaded
unfolding load_rule load_backends
load_config none = not_read
load_config (some t) = elim t.upstream [
  | none ↦ panics
  | some u ↦ load_backends t.enabled (map load_rule t.rules) u
]

-- Clone, of a backend
unfoldable pub clone : BackendConfig → BackendConfig
clone b = record b { max_timeout = b.timeout }
