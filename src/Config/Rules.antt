-- ===== src/Config/Rules.antt =====
-- What a loaded configuration knows of the rules in the file (pkg/config/config.go: LoadConfig).
use adv_cache.Prelude.{
  ◌≡◌, ◌≢◌, refl, sym, ap, ◌∙◌, Bool, true, false, ◌||◌, Bool-cases, inl, inr, ◌⊎◌, Option-cases,
  none, some, List, [], ◌∷◌, ◌++◌, map, All,
}
use adv_cache.Model.Binary.{Bytes}
use adv_cache.Model.Entry.{match_rule, bytes_equal}
use adv_cache.Model.Equal.{bytes_equal→eq, bytes_equal_refl}
use adv_cache.Upstream.Backend.{contains}
use adv_cache.Config.{
  RuleText, Text, LoadedRule, Config, loaded, add_key, keys_of, load_rule, load_backends,
  load_config, Upstream,
}

or_assoc : (a b c : Bool) → ((a || b) || c) ≡ (a || (b || c))
or_assoc true b c = refl
or_assoc false b c = refl

or_false : (a : Bool) → (a || false) ≡ a
or_false true = refl
or_false false = refl

or_true : (a : Bool) → (a || true) ≡ true
or_true true = refl
or_true false = refl

contains-append :
    (xs ys : List Bytes) (k : Bytes) → contains (xs ++ ys) k ≡ (contains xs k || contains ys k)
unfolding contains
contains-append [] ys k = refl
contains-append (x ∷ xs) ys k =
    ap (λ b. bytes_equal x k || b) (contains-append xs ys k)
    ∙ sym (or_assoc (bytes_equal x k) (contains xs k) (contains ys k))

contains-known :
    (keys : List Bytes) (h k : Bytes)
    → contains keys h ≡ true
    → contains keys k ≡ (contains keys k || bytes_equal h k)
contains-known keys h k on = elim (Bool-cases (bytes_equal h k)) [
  | inl same ↦
      let known : contains keys k ≡ true =
        ap (contains keys) (sym (bytes_equal→eq h k same)) ∙ on in
      known ∙ sym (ap (λ b. contains keys k || b) same ∙ or_true (contains keys k))
  | inr other ↦ sym (ap (λ b. contains keys k || b) other ∙ or_false (contains keys k))
]

contains-one : (h k : Bytes) → contains (h ∷ []) k ≡ bytes_equal h k
unfolding contains
contains-one h k = or_false (bytes_equal h k)

contains-add_key :
    (keys : List Bytes) (h k : Bytes)
    → contains (add_key keys h) k ≡ (contains keys k || bytes_equal h k)
unfolding add_key
contains-add_key keys h k = elim (Bool-cases (contains keys h)) [
  | inl on ↦ rw on (contains-known keys h k on)
  | inr off ↦
      rw off (contains-append keys (h ∷ []) k ∙ ap (λ b. contains keys k || b) (contains-one h k))
]

contains-keys_of :
    (keys headers : List Bytes) (k : Bytes)
    → contains (keys_of keys headers) k ≡ (contains keys k || contains headers k)
unfolding keys_of contains
contains-keys_of keys [] k = sym (or_false (contains keys k))
contains-keys_of keys (h ∷ headers) k =
    contains-keys_of (add_key keys h) headers k
    ∙ (ap (λ b. b || contains headers k) (contains-add_key keys h k)
        ∙ or_assoc (contains keys k) (bytes_equal h k) (contains headers k))

-- The rule of the file is found by its path; its query names are those listed, and a header counts
-- for the key, or is kept of a response, just if it is listed.
pub record IsConfigured (rules : List LoadedRule) (t : RuleText) : Type 0 where
  pub rule : LoadedRule
  pub matched : match_rule (map (λ r. r.rule) rules) t.path ≡ some rule.rule
  pub path : rule.rule.path_bytes ≡ t.path
  pub query : rule.rule.query_bytes ≡ t.query
  pub keyed : (k : Bytes) → contains rule.rule.headers k ≡ contains t.key_headers k
  pub kept : (k : Bytes) → contains rule.allowed k ≡ contains t.value_headers k

-- Each path is the key of one rule.
abbrev pub Distinct : List RuleText → Type 0
Distinct [] = Unit
Distinct (t ∷ ts) = All (λ u. bytes_equal t.path u.path ≡ false) ts × Distinct ts

IsConfigured-here : (t : RuleText) (rules : List LoadedRule) → IsConfigured (load_rule t ∷ rules) t
unfolding load_rule match_rule contains
IsConfigured-here t rules = record {
  rule = load_rule t;
  matched = rw (bytes_equal_refl t.path) refl;
  path = refl;
  query = refl;
  keyed = contains-keys_of [] t.key_headers;
  kept = contains-keys_of [] t.value_headers;
}

IsConfigured-there :
    (t : RuleText) (rules : List LoadedRule) (us : List RuleText)
    → All (λ u. bytes_equal t.path u.path ≡ false) us
    → All (IsConfigured rules) us
    → All (IsConfigured (load_rule t ∷ rules)) us
unfolding load_rule match_rule
IsConfigured-there t rules [] ds cs = tt
IsConfigured-there t rules (u ∷ us) (d, ds) (c, cs) = (
  record {
    rule = c.rule;
    matched = rw d c.matched;
    path = c.path;
    query = c.query;
    keyed = c.keyed;
    kept = c.kept;
  },
  IsConfigured-there t rules us ds cs,
)

map-IsConfigured : (ts : List RuleText) → Distinct ts → All (IsConfigured (map load_rule ts)) ts
map-IsConfigured [] ds = tt
map-IsConfigured (t ∷ ts) (d, ds) = (
  IsConfigured-here t (map load_rule ts),
  IsConfigured-there t (map load_rule ts) ts d (map-IsConfigured ts ds),
)

-- If the paths of the rules are distinct and the file has a backend or a cluster, the configuration is
-- loaded with its switch as in the file; each rule of the file is found by its path, with the query
-- names listed, and with just the listed headers for the key and for the response.
pub load_config-IsConfigured :
    (t : Text) (u : Upstream)
    → t.upstream ≡ some u
    → (u.cluster ≢ none) ⊎ (u.backend ≢ none)
    → Distinct t.rules
    → (c : Config) × (load_config (some t) ≡ loaded c)
      × (c.atomic_enabled ≡ t.enabled)
      × All (IsConfigured c.rules) t.rules
unfolding load_config load_backends
load_config-IsConfigured t u e some_backend ds = elim (Option-cases u.cluster) [
  | inr (bs, q) ↦ rw (e, q) (_, refl, refl, map-IsConfigured t.rules ds)
  | inl no_cluster ↦ elim (Option-cases u.backend) [
    | inr (b, q) ↦ rw (e, no_cluster, q) (_, refl, refl, map-IsConfigured t.rules ds)
    | inl no_backend ↦ absurd (elim some_backend [ inl h ↦ h no_cluster | inr h ↦ h no_backend ])
  ]
]
