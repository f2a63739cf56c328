-- ===== src/System/Restarted.antt =====
-- A restart: what a cache held is loaded into a new one (pkg/storage/lru/dumper.go,
-- pkg/storage/lru/storage.go).
use adv_cache.Prelude.{
  ℕ, ◌+◌, ◌^◌, ◌<◌, ◌≡◌, refl, sym, ap, ◌∙◌, inl, inr, Option-cases, true, none, some, List, [],
  ◌∷◌, All, arith, length,
}
use adv_cache.Model.Binary.{Bytes}
use adv_cache.Model.Entry.{Entry, payload_bytes}
use adv_cache.Shard.{map_shard_key, total_shards}
use adv_cache.Ring.Members.{In}
use adv_cache.Lfu.{TinyLfu}
use adv_cache.Storage
use adv_cache.Storage.{Storage, map_get}
use adv_cache.Api.Proxy.{Fetched, serve}
use adv_cache.Api.Proxy.Replies.{asked}
use adv_cache.Dump.RoundTrip.{restored}
use adv_cache.Dump.Restored.{set_decoded}
use adv_cache.System.{Logged, System, boot, load_entry, loaded_entry, Reach, here, next}
use adv_cache.System.Asked.{SystemIsSound}
use adv_cache.System.Reached.{Reach-boot-IsSound}
use adv_cache.System.Served.{Fetched200, Reach-boot-Fetched200}

-- The entry as it comes from the dump of `from`.
pub record Dumped (from : System) (e : Entry) : Type 0 where
  pub key : ℕ
  pub address : ℕ
  pub found : map_get key from.controller.cache ≡ some address
  pub entry : restored (from.controller.cache.entries address) ≡ e

Dumped-loads :
    (from : System) (e : Entry)
    → SystemIsSound from
    → Dumped from e
    → (b : Bytes) × (e.payload ≡ some b)
      × Logged from.log e.key e.fingerprint b
      × (e.shard ≡ map_shard_key e.key)
unfolding payload_bytes
Dumped-loads from e h d =
    let c = from.controller.cache in
    let p = d.address in
    let m = h.valid.linked.mapped d.key p d.found in
    elim (Option-cases (c.entries p).payload) [
      | inl none_left ↦ absurd (h.full d.key p d.found none_left)
      | inr (b, full) ↦
          rw (← d.entry)
            (b, rw full refl, h.logged p b full, m.shard ∙ ap map_shard_key (sym m.key))
    ]

module _ (xxh3 : Bytes → ℕ) (now : ℕ) where
  abbrev pub load_all : List Entry → System → System
  load_all [] s = s
  load_all (e ∷ es) s = load_entry xxh3 now e (load_all es s)

  load_all-keeps :
      (es : List Entry) (s : System)
      → ((load_all es s).log ≡ s.log)
        × ((load_all es s).controller.next_entry ≡ s.controller.next_entry + length es)
  unfolding load_entry set_decoded
  load_all-keeps [] s = (refl, omega arith)
  load_all-keeps (e ∷ es) s = let (log, n) = load_all-keeps es s in (log, omega (arith, n))

  -- Entries that a sound cache held can be loaded into a cache that knows its answers, in any order:
  -- the loads are steps of the new one.
  pub Reach-load_all :
      (from s : System) (es : List Entry)
      → SystemIsSound from
      → s.log ≡ from.log
      → All (Dumped from) es
      → s.controller.next_entry + length es < 2 ^ 63
      → Reach xxh3 s (load_all es s)
  Reach-load_all from s [] h same ds few = here
  Reach-load_all from s (e ∷ es) h same ds few =
      let (b, full, logged, shard) = Dumped-loads from e h ds.0 in
      let (log, n) = load_all-keeps es s in
      next (Reach-load_all from s es h same ds.1 (omega (arith, few))) (
        loaded_entry now e b (load_all es s) full (rw (log, same) logged) shard
          (omega (arith, n, few)))

-- Later steps after earlier ones.
Reach-Reach : (xxh3 : Bytes → ℕ) {s t u : System} → Reach xxh3 s t → Reach xxh3 t u → Reach xxh3 s u
Reach-Reach xxh3 first here = first
Reach-Reach xxh3 first (next steps st) = next (Reach-Reach xxh3 first steps) st

-- A cache that ran from the start with no payloads to any state `before`, and a new one that starts
-- so, loads any entries that the first one held, fewer than 2 ^ 63, and runs on: with the cache
-- enabled, a request that the new one finds is answered with status 200
-- and the headers and the body of a response that the upstream gave, with status 200, for the same
-- key and fingerprint, in the first run or in the second, and with the time of the found entry.
pub restart-Fetched200 :
    (xxh3 : Bytes → ℕ) (entries : ℕ → Entry) (lfu : TinyLfu) (balancer_mem memory_threshold : ℕ)
    (shards : List ℕ) (before s : System) (es : List Entry) (now loaded_at q : ℕ) (e : Entry)
    (f1 f2 : Fetched)
    → ((p : ℕ) → (entries p).payload ≡ none)
    → length shards < 2 ^ 63
    → ((i : ℕ) → i < total_shards → In i shards)
    → Reach xxh3 (boot [] entries lfu balancer_mem memory_threshold shards) before
    → All (Dumped before) es
    → length es < 2 ^ 63
    → Reach xxh3
        (load_all xxh3 loaded_at es
          (boot before.log entries lfu balancer_mem memory_threshold shards))
        s
    → s.controller.enabled ≡ true
    → (Storage.get e.key e.fingerprint (asked e s.controller)).1 ≡ some q
    → Fetched200 s.log e.key e.fingerprint
        (s.controller.cache.entries q).refreshed_at
        (serve xxh3 now (some e) f1 f2 s.controller).1
unfolding boot
restart-Fetched200 xxh3 entries lfu balancer_mem memory_threshold shards before s es now loaded_at q
      e f1 f2 empty room every first dumped few second =
    let sound =
      Reach-boot-IsSound [] entries lfu balancer_mem memory_threshold shards xxh3 before empty room
        every first in
    let start = boot before.log entries lfu balancer_mem memory_threshold shards in
    Reach-boot-Fetched200 xxh3 before.log entries lfu balancer_mem memory_threshold shards now q e
      f1 f2 s empty room every
      (Reach-Reach xxh3
        (Reach-load_all xxh3 loaded_at before start es sound refl dumped (omega (arith, few)))
        second)
