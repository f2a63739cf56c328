-- ===== src/System/Served.antt =====
-- What the running cache serves (internal/cache/api/cache.go).
use adv_cache.Prelude.{
  ℕ, ◌≡◌, ◌⊎◌, refl, sym, ap, ◌∙◌, inl, inr, true, none, some, Option-cases, List, [], ◌∷◌, arith,
  ◌<◌, ◌^◌, length,
}
use adv_cache.Model.Binary.{Bytes}
use adv_cache.Model.Entry.{Entry}
use adv_cache.Model.Payload.{payload, set_payload, unpacked}
use adv_cache.Model.Payload.RoundTrip.{payload-set_payload}
use adv_cache.Storage
use adv_cache.Storage.{Storage, map_get}
use adv_cache.Storage.Stored.{entries-get, get-some}
use adv_cache.Api.Proxy.{Fetched, Reply, from_response, serve}
use adv_cache.Api.Proxy.Replies.{asked, serve-hit}
use adv_cache.Api.Proxy.Fresh.{payload_same, view}
use adv_cache.System.{Origin, Answered, Logged, System, Reach, boot}
use adv_cache.System.Reached.{Reach-boot-IsSound}
use adv_cache.Lfu.{TinyLfu}
use adv_cache.Ring.Members.{In}
use adv_cache.Shard.{total_shards}
use adv_cache.System.Asked.{SystemIsSound}

abbrev pub Among : Origin → List Origin → Type 0
Among o [] = ⊥
Among o (x ∷ xs) = (o ≡ x) ⊎ Among o xs

Logged-Among :
    (log : List Origin) (key : ℕ) (fp b : Bytes)
    → Logged log key fp b
    → (o : Origin) × Among o log × Answered key fp b o
Logged-Among [] key fp b l = elim l [ ]
Logged-Among (x ∷ log) key fp b (inl a) = (x, inl refl, a)
Logged-Among (x ∷ log) key fp b (inr l) =
    let (o, m, a) = Logged-Among log key fp b l in (o, inr m, a)

-- A reply with what the upstream answered, with status 200, for this key and fingerprint.
pub record Fetched200 (log : List Origin) (key : ℕ) (fp : Bytes) (time : ℕ) (r : Reply)
    : Type 0 where
  pub origin : Origin
  pub among : Among origin log
  pub same_key : origin.key ≡ key
  pub same_fingerprint : origin.fingerprint ≡ fp
  pub good : origin.response.status ≡ 200
  pub reply : r ≡ from_response 200 origin.response.headers origin.response.body time

-- The entry that a request finds in a sound state, before the new entry is written.
found-before :
    (e : Entry) (q : ℕ) (s : System)
    → SystemIsSound s
    → (Storage.get e.key e.fingerprint (asked e s.controller)).1 ≡ some q
    → (map_get e.key s.controller.cache ≡ some q)
      × ((s.controller.cache.entries q).fingerprint ≡ e.fingerprint)
      × ((asked e s.controller).entries q ≡ s.controller.cache.entries q)
unfolding map_get
found-before e q s h hit =
    let (m, fp) = get-some e.key e.fingerprint q (asked e s.controller) hit in
    let lt = h.bounded e.key q m in
    let same : (asked e s.controller).entries q ≡ s.controller.cache.entries q =
      ground (arith, lt) in
    (m, rw same at fp, same)

-- A hit in a sound state.
serve-Fetched200 :
    (xxh3 : Bytes → ℕ) (now q : ℕ) (e : Entry) (f1 f2 : Fetched) (s : System)
    → SystemIsSound s
    → s.controller.enabled ≡ true
    → (Storage.get e.key e.fingerprint (asked e s.controller)).1 ≡ some q
    → Fetched200 s.log e.key e.fingerprint
        (s.controller.cache.entries q).refreshed_at
        (serve xxh3 now (some e) f1 f2 s.controller).1
serve-Fetched200 xxh3 now q e f1 f2 s h on hit =
    let d = s.controller.cache.entries q in
    let (m, fp, same) = found-before e q s h hit in
    let kept = entries-get e.key e.fingerprint (asked e s.controller) in
    elim (Option-cases d.payload) [
      | inl empty ↦ absurd (h.full e.key q m empty)
      | inr (b, full) ↦
          let (o, among, a) = Logged-Among s.log d.key d.fingerprint b (h.logged q b full) in
          let read : payload d ≡ some (unpacked (view o.request o.response)) =
            payload_same d (set_payload 0 o.request o.response d)
              (unfold set_payload in (full ∙ ap some (sym a.packed)))
            ∙ payload-set_payload 0 o.request o.response d a.packable in
          let served =
            serve-hit xxh3 now q e (view o.request o.response) f1 f2 s.controller on hit
              (rw (kept, same) read) in
          let reply = rw (kept, same, a.good) at served.0 in
          record {
            origin = o;
            among = among;
            same_key = a.key ∙ (h.valid.linked.mapped e.key q m).key;
            same_fingerprint = a.fingerprint ∙ fp;
            good = a.good;
            reply = reply;
          }
    ]

-- From the start with no payloads, after whatever of these steps, with the cache enabled: a request
-- that is a hit is answered with status 200 and the headers and the body of a response that the
-- upstream gave, in this run or by the log of earlier ones, with status 200, for an entry of the same
-- key and fingerprint, and with the time of the found entry.
pub Reach-boot-Fetched200 :
    (xxh3 : Bytes → ℕ) (earlier : List Origin) (entries : ℕ → Entry) (lfu : TinyLfu)
    (balancer_mem memory_threshold : ℕ) (shards : List ℕ) (now q : ℕ) (e : Entry) (f1 f2 : Fetched)
    (s : System)
    → ((p : ℕ) → (entries p).payload ≡ none)
    → length shards < 2 ^ 63
    → ((i : ℕ) → i < total_shards → In i shards)
    → Reach xxh3 (boot earlier entries lfu balancer_mem memory_threshold shards) s
    → s.controller.enabled ≡ true
    → (Storage.get e.key e.fingerprint (asked e s.controller)).1 ≡ some q
    → Fetched200 s.log e.key e.fingerprint
        (s.controller.cache.entries q).refreshed_at
        (serve xxh3 now (some e) f1 f2 s.controller).1
Reach-boot-Fetched200 xxh3 earlier entries lfu balancer_mem memory_threshold shards now q e f1 f2 s
      empty room every steps =
    serve-Fetched200 xxh3 now q e f1 f2 s (
      Reach-boot-IsSound earlier entries lfu balancer_mem memory_threshold shards xxh3 s empty room
        every steps)
