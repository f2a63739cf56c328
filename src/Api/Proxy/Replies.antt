-- ===== src/Api/Proxy/Replies.antt =====
-- What the client gets (internal/cache/api/cache.go).
use adv_cache.Prelude.{
  ℕ, ◌+◌, ◌≡◌, ◌≢◌, ◌↔◌, refl, true, Option, none, some, arith, ◌==◌, update, Bool-cases, inl, inr,
}
use adv_cache.Model.Binary.{Bytes}
use adv_cache.Model.Entry.{Entry}
use adv_cache.Model.Payload.{payload, Unpacked, unpacked, PayloadResult, payload_is_empty}
use adv_cache.Storage
use adv_cache.Storage.{Storage}
use adv_cache.Api.Proxy.{
  Controller, Fetched, failed, fetched, proxy_reply, from_entry, through_proxy, from_response,
  panics, on_miss, on_found, handle_trough_cache, finish, serve,
}

-- The storage as the handler asks it, with the new entry at its address.
abbrev pub asked : Entry → Controller → Storage
asked e c = record c.cache { entries = update c.cache.entries c.next_entry e }

-- A response that is not stored, so that `entry` stays nil.
abbrev pub Unstored : Fetched → Type 0
Unstored failed = ⊥
Unstored (fetched req resp) = resp.status ≢ 200

-- What Get finds and the upstream answers make the handler panic: nothing found and a response that
-- is not stored, or an entry whose payload cannot be taken apart.
abbrev pub FoundPanics : Option ℕ → Fetched → Storage → Type 0
FoundPanics none f s = Unstored f
FoundPanics (some q) f s = payload (s.entries q) ≡ none

abbrev pub RequestPanics : Option Entry → Fetched → Controller → Type 0
RequestPanics none f c = ⊥
RequestPanics (some e) f c =
    (c.enabled ≡ true)
    × FoundPanics (Storage.get e.key e.fingerprint (asked e c)).1 f
        (Storage.get e.key e.fingerprint (asked e c)).0

proxied-panics : (f : Fetched) → proxy_reply f ≢ panics
proxied-panics failed h = cc
proxied-panics (fetched req resp) h = cc

from_entry-panics :
    (f2 : Fetched) (r : Option PayloadResult) (at : ℕ) (c : Controller)
    → ((finish f2 (c, from_entry r at)).1 ≡ panics) ↔ (r ≡ none)
unfolding finish through_proxy
from_entry-panics f2 none at c = (λ h. refl, λ h. refl)
from_entry-panics f2 (some payload_is_empty) at c = (λ h. absurd (proxied-panics f2 h), λ h. cc)
from_entry-panics f2 (some (unpacked u)) at c = (λ h. cc, λ h. cc)

on_miss-panics :
    (xxh3 : Bytes → ℕ) (now p : ℕ) (f1 f2 : Fetched) (c : Controller)
    → ((finish f2 (on_miss xxh3 now f1 p c)).1 ≡ panics) ↔ Unstored f1
unfolding on_miss finish
on_miss-panics xxh3 now p failed f2 c = (λ h. cc, λ h. absurd h)
on_miss-panics xxh3 now p (fetched req resp) f2 c = elim (Bool-cases (resp.status == 200)) [
  | inl ok ↦ rw ok (λ h. cc, λ h. absurd (h (ground arith)))
  | inr bad ↦ rw bad (λ h e. ground arith, λ h. refl)
]

on_found-panics :
    (xxh3 : Bytes → ℕ) (now p : ℕ) (f1 f2 : Fetched) (o : Option ℕ) (c : Controller)
    → ((finish f2 (on_found xxh3 now o f1 p c)).1 ≡ panics) ↔ FoundPanics o f1 c.cache
unfolding on_found
on_found-panics xxh3 now p f1 f2 none c = on_miss-panics xxh3 now p f1 f2 c
on_found-panics xxh3 now p f1 f2 (some q) c =
    let e = c.cache.entries q in
    from_entry-panics f2 (payload e) e.refreshed_at (record c { hits = c.hits + 1 })

-- The handler of a request panics in these cases and in no other: the cache is enabled, a rule has
-- the path, and either the storage finds no entry and the upstream answers with another status than
-- 200, or the payload of the entry found cannot be taken apart.
pub serve-panics :
    (xxh3 : Bytes → ℕ) (now : ℕ) (e : Option Entry) (f1 f2 : Fetched) (c : Controller)
    → ((serve xxh3 now e f1 f2 c).1 ≡ panics) ↔ RequestPanics e f1 c
unfolding serve handle_trough_cache finish through_proxy
serve-panics xxh3 now none f1 f2 c = elim (Bool-cases c.enabled) [
  | inl on ↦ rw on (λ h. proxied-panics f2 h, λ h. absurd h)
  | inr off ↦ rw off (λ h. proxied-panics f2 h, λ h. absurd h)
]
serve-panics xxh3 now (some e) f1 f2 c = elim (Bool-cases c.enabled) [
  | inl on ↦
      let s = asked e c in
      let (t, found) = Storage.get e.key e.fingerprint s in
      let p = c.next_entry in
      let d = record c { enabled = true; total = c.total + 1; cache = t; next_entry = p + 1 } in
      let (there, back) = on_found-panics xxh3 now p f1 f2 found d in
      rw on (λ h. (refl, there h), λ h. back h.1)
  | inr off ↦ rw off (λ h. absurd (proxied-panics f2 h), λ h. cc h.0)
]

-- With the cache enabled, a request whose entry the storage finds with a payload that unpacks is
-- answered with the stored status, headers and body and the time of the refresh, whatever the
-- upstream would answer, and counts one hit.
pub serve-hit :
    (xxh3 : Bytes → ℕ) (now q : ℕ) (e : Entry) (u : Unpacked) (f1 f2 : Fetched) (c : Controller)
    → c.enabled ≡ true
    → (Storage.get e.key e.fingerprint (asked e c)).1 ≡ some q
    → payload ((Storage.get e.key e.fingerprint (asked e c)).0.entries q) ≡ some (unpacked u)
    → ((serve xxh3 now (some e) f1 f2 c).1
        ≡ from_response u.status u.headers u.body
            ((Storage.get e.key e.fingerprint (asked e c)).0.entries q).refreshed_at)
      × ((serve xxh3 now (some e) f1 f2 c).0.hits ≡ c.hits + 1)
unfolding serve handle_trough_cache on_found finish
serve-hit xxh3 now q e u f1 f2 c on hit stored = rw on (rw (hit, on_found) (rw stored (refl, refl)))
