-- ===== src/Model/Keys/Canonical.antt =====
-- Which requests share their keys (pkg/model/keys.go).
use mathlib.Core.List.{append_assoc}
use adv_cache.Prelude.{
  ℕ, ◌≡◌, ◌≢◌, refl, ◌∙◌, Bool-cases, inl, inr, Option, none, some, List, [], ◌∷◌, ◌++◌, arith,
}
use adv_cache.Model.Binary.{Bytes}
use adv_cache.Model.Entry.{Entry, Rule, Rules, match_rule}
use adv_cache.Model.Query.{is_allowed, keep_allowed, filter_and_sort}
use adv_cache.Model.Keys.{Hasher, write_pairs, calculate_and_set_up_keys, entry_under, new_entry}
use adv_cache.Sort.{Pair, kv_slice}
use adv_cache.Sort.Sorted.{Reordered, same, exchange, kv_slice-Reordered}

keep_allowed-append :
    (allowed : List Bytes) (xs ys : List Pair)
    → keep_allowed allowed (xs ++ ys) ≡ keep_allowed allowed xs ++ keep_allowed allowed ys
unfolding keep_allowed
keep_allowed-append allowed [] ys = refl
keep_allowed-append allowed (kv ∷ xs) ys = ground (arith, keep_allowed-append allowed xs ys)

keep-exchange :
    (allowed : List Bytes) (before after : List Pair) (a b : Pair)
    → a.0 ≢ b.0
    → kv_slice (keep_allowed allowed (before ++ a ∷ b ∷ after))
      ≡ kv_slice (keep_allowed allowed (before ++ b ∷ a ∷ after))
unfolding keep_allowed
keep-exchange allowed before after a b h =
    rw
      (
        keep_allowed-append allowed before (a ∷ b ∷ after),
        keep_allowed-append allowed before (b ∷ a ∷ after),
      )
      (elim (Bool-cases (is_allowed allowed a.0)) [
        | inl in_a ↦ elim (Bool-cases (is_allowed allowed b.0)) [
          | inl in_b ↦
              rw (in_a, in_b)
                (kv_slice-Reordered (
                  exchange (keep_allowed allowed before) (keep_allowed allowed after) a b h
                    (same _)))
          | inr out_b ↦ rw (in_a, out_b)
        ]
        | inr out_a ↦ rw out_a
      ])

filter_and_sort-Reordered :
    (allowed : List Bytes) {xs ys : List Pair}
    → Reordered xs ys
    → filter_and_sort allowed xs ≡ filter_and_sort allowed ys
unfolding filter_and_sort
filter_and_sort-Reordered allowed (same kv) = refl
filter_and_sort-Reordered allowed (exchange before after a b h r) =
    keep-exchange allowed before after a b h ∙ filter_and_sort-Reordered allowed r

entry_under-Reordered :
    (hasher : Hasher) (now : ℕ) (peek : Bytes → Bytes) {args args' : List Pair}
    → Reordered args args'
    → (r : Option Rule) → entry_under hasher now args peek r ≡ entry_under hasher now args' peek r
unfolding entry_under
entry_under-Reordered hasher now peek r none = refl
entry_under-Reordered hasher now peek r (some rule) =
    rw (filter_and_sort-Reordered rule.query_bytes r)

-- A request with its query arguments in another order, arguments of one name keeping theirs, makes
-- the same entry: the same key, fingerprint and shard.
pub new_entry-Reordered :
    (hasher : Hasher) (now : ℕ) (rules : Rules) (path : Bytes) (peek : Bytes → Bytes)
    {args args' : List Pair}
    → Reordered args args'
    → new_entry hasher now rules path args peek ≡ new_entry hasher now rules path args' peek
unfolding new_entry
new_entry-Reordered hasher now rules path peek r =
    entry_under-Reordered hasher now peek r (match_rule rules path)

-- A byte string at the end of a parameter's name or at the start of its value makes no difference
-- to the keys of the entry, the fingerprint included.
pub calculate_and_set_up_keys-boundary :
    (hasher : Hasher) (name moved value : Bytes) (queries headers : List Pair) (e : Entry)
    → calculate_and_set_up_keys hasher ((name ++ moved, value) ∷ queries) headers e
      ≡ calculate_and_set_up_keys hasher ((name, moved ++ value) ∷ queries) headers e
unfolding calculate_and_set_up_keys write_pairs
calculate_and_set_up_keys-boundary hasher name moved value queries headers e = simp append_assoc

-- The keys do not depend on the path: under two rules with the same key parameters and headers,
-- requests for different paths with the same arguments share key, fingerprint and shard.
pub new_entry-path :
    (hasher : Hasher) (now : ℕ) (rules : Rules) (path path' : Bytes) (args : List Pair)
    (peek : Bytes → Bytes) (r r' : Rule)
    → match_rule rules path ≡ some r
    → match_rule rules path' ≡ some r'
    → r.query_bytes ≡ r'.query_bytes
    → r.headers ≡ r'.headers
    → (e : Entry) × (e' : Entry) × (new_entry hasher now rules path args peek ≡ some e)
      × (new_entry hasher now rules path' args peek ≡ some e')
      × (e.key ≡ e'.key)
      × (e.fingerprint ≡ e'.fingerprint)
      × (e.shard ≡ e'.shard)
unfolding new_entry entry_under calculate_and_set_up_keys
new_entry-path hasher now rules path path' args peek r r' m m' q h =
    rw (m, m') (rw (q, h) (_, _, refl, refl, refl, refl, refl))
