-- ===== src/System/Reached.antt =====
-- What holds in every state that the running cache reaches (internal/cache/api/cache.go,
-- pkg/storage/lru).
use adv_cache.Prelude.{
  ℕ, ◌^◌, ◌<◌, ◌≡◌, refl, inl, inr, Bool-cases, Option, none, some, List, ◌∷◌, ◌++◌, length, arith,
  ◌==◌,
}
use adv_cache.Model.Binary.{Bytes}
use adv_cache.Model.Entry.{Entry}
use adv_cache.Model.Payload.{Request, Response, PayloadResult, payload_is_empty, unpacked, payload}
use adv_cache.Model.Payload.RoundTrip.{Packable}
use adv_cache.Lfu.{TinyLfu}
use adv_cache.Ring.{new_ring}
use adv_cache.Ring.Members.{In}
use adv_cache.Shard
use adv_cache.Shard.{new_shard, total_shards}
use adv_cache.Storage.{Storage, map_get}
use adv_cache.Storage.Change.{Change-same}
use adv_cache.Storage.Evictor.{new_storage, refresh_mem}
use adv_cache.Storage.Evictor.Pass.{refresh_mem-IsValid}
use adv_cache.Storage.Evictor.Started.{init-Ready, init-db}
use adv_cache.Storage.Evictor.Runs.{evict_until_within_limit-Kept}
use adv_cache.Storage.Refresher
use adv_cache.Storage.Refresher.{refresh, refresh_payload, store_fetched, refreshed}
use adv_cache.Storage.Refresher.Outcomes.{written}
use adv_cache.Api.Proxy.{fetched}
use adv_cache.Api.Switch.{set_enabled}
use adv_cache.System.{
  Origin, System, Step, Reach, here, next, asked, answered, unanswered, refreshed_entry, evicted,
  loaded_entry, mem_refreshed, switched, answer, renewed, boot,
}
use adv_cache.System.Sound.{IsSound, IsSound-Change}
use adv_cache.System.Stored.{IsSound-without, IsSound-filled, IsSound-set, payload-filled}
use adv_cache.System.Asked.{SystemIsSound, ask-IsSound, load_entry-IsSound}

answer-IsSound :
    (xxh3 : Bytes → ℕ) (now p : ℕ) (before after : List ℕ) (req : Request) (resp : Response)
    (s : System)
    → Packable req resp
    → IsSound s.controller.cache s.controller.next_entry (before ++ p ∷ after) s.log
    → SystemIsSound (answer xxh3 now p (fetched req resp) (record s { waiting = before ++ after }))
unfolding answer
answer-IsSound xxh3 now p before after req resp s fits h = elim (Bool-cases (resp.status == 200)) [
  | inl ok ↦
      let c = s.controller.cache in
      rw ok (
        IsSound-set xxh3 now p before after (IsSound-filled now p req resp c h (ground arith) fits)
          (λ empty. cc (payload-filled now p req resp c p refl, empty)))
  | inr other ↦ rw other (IsSound-without before p after h)
]

-- A refresh that succeeds has read a payload, got status 200 and written the answer.
refresh-refreshed :
    (now p : ℕ) (req : Request) (resp : Response) (o : Option PayloadResult) (s t : Storage)
    → refresh_payload now p (λ u. Refresher.fetched req resp) o s ≡ some (t, refreshed)
    → (resp.status ≡ 200) × (written now p req resp s ≡ t)
unfolding refresh_payload store_fetched
refresh-refreshed now p req resp none s t e = cc
refresh-refreshed now p req resp (some payload_is_empty) s t e = cc
refresh-refreshed now p req resp (some (unpacked u)) s t e =
    elim (Bool-cases (resp.status == 200)) [
      | inl ok ↦ (ground arith, cc (rw ok at e))
      | inr other ↦ cc (rw other at e)
    ]

renewed-IsSound :
    (now p : ℕ) (req : Request) (resp : Response) (t : Storage) (s : System)
    → refresh now p (λ u. Refresher.fetched req resp) s.controller.cache ≡ some (t, refreshed)
    → Packable req resp
    → SystemIsSound s
    → SystemIsSound (renewed p req resp t s)
unfolding refresh
renewed-IsSound now p req resp t s e fits h =
    let c = s.controller.cache in
    let (ok, same) = refresh-refreshed now p req resp (payload (c.entries p)) c t e in
    rw same at (IsSound-filled now p req resp c h ok fits)

refresh_mem-IsSound :
    (s : System)
    → SystemIsSound s
    → SystemIsSound
        (record s { controller = record s.controller { cache = refresh_mem s.controller.cache } })
unfolding refresh_mem
refresh_mem-IsSound s h =
    IsSound-Change (Change-same s.controller.cache (refresh_mem s.controller.cache) refl refl refl)
      (refresh_mem-IsValid s.controller.cache h.valid) h

module _ (xxh3 : Bytes → ℕ) where
  Step-IsSound : {s t : System} → Step xxh3 s t → SystemIsSound s → SystemIsSound t
  unfolding answer set_enabled
  Step-IsSound (asked e s on empty shard few) h = ask-IsSound e s empty shard few h
  Step-IsSound (answered now p before after req resp s waits fits) h =
      answer-IsSound xxh3 now p before after req resp s fits (rw waits at h)
  Step-IsSound (unanswered now p before after s waits) h =
      IsSound-without before p after (rw waits at h)
  Step-IsSound (refreshed_entry now p req resp t s e fits) h =
      renewed-IsSound now p req resp t s e fits h
  Step-IsSound (evicted memory_threshold fuel r s e) h =
      let k = evict_until_within_limit-Kept memory_threshold fuel _ r h.valid e in
      IsSound-Change k.change k.valid h
  Step-IsSound (loaded_entry now e b s full logged shard few) h =
      load_entry-IsSound xxh3 now e b s full logged shard few h
  Step-IsSound (mem_refreshed s) h = refresh_mem-IsSound s h
  Step-IsSound (switched v s) h = h

  Reach-IsSound : {s t : System} → SystemIsSound s → Reach xxh3 s t → SystemIsSound t
  Reach-IsSound h here = h
  Reach-IsSound h (next steps st) = Step-IsSound st (Reach-IsSound h steps)

module _ (earlier : List Origin) (entries : ℕ → Entry) (lfu : TinyLfu)
    (balancer_mem memory_threshold : ℕ) (shards : List ℕ) where
  boot-IsSound :
      ((q : ℕ) → (entries q).payload ≡ none)
      → length shards < 2 ^ 63
      → ((i : ℕ) → i < total_shards → In i shards)
      → SystemIsSound (boot earlier entries lfu balancer_mem memory_threshold shards)
  unfolding boot new_storage new_ring new_shard map_get Shard.get Shard.lookup
  boot-IsSound empty room every =
      let r = init-Ready shards entries lfu balancer_mem memory_threshold room every in
      let e = new_storage entries lfu balancer_mem memory_threshold in
      let (same, kept, lists) = init-db shards e (λ j. refl) in
      record {
        valid = r.valid;
        small = omega arith;
        bounded = λ k q f. cc (rw kept at f);
        full = λ k q f. cc (rw kept at f);
        waits = tt;
        distinct = tt;
        room = λ j. rw (lists j) (omega arith);
        logged = λ q b f. let no : (entries q).payload ≡ some b = rw same at f in cc (no, empty q);
      }

  -- From the start with no payloads, whatever requests come in, fewer than 2 ^ 63 of them, are answered
  -- with what can be packed or fail to be answered, in any order of their fetches, and whatever entries
  -- are refreshed with what can be packed, entries with a logged payload are loaded, runs of the
  -- evictor end, sums are read and switches are made: the storage is valid, each of its entries has a
  -- payload, each payload is one with which the upstream answered, in this run or by the log of
  -- earlier ones, with status 200 for the entry's key and fingerprint, and an entry whose fetch is
  -- under way is not in the map.
  pub Reach-boot-IsSound :
      (xxh3 : Bytes → ℕ) (s : System)
      → ((q : ℕ) → (entries q).payload ≡ none)
      → length shards < 2 ^ 63
      → ((i : ℕ) → i < total_shards → In i shards)
      → Reach xxh3 (boot earlier entries lfu balancer_mem memory_threshold shards) s
      → SystemIsSound s
  Reach-boot-IsSound xxh3 s empty room every steps =
      Reach-IsSound xxh3 (boot-IsSound empty room every) steps
