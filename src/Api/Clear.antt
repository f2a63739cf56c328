-- ===== src/Api/Clear.antt =====
-- The handler that clears the storage (internal/cache/api/clear.go). The empty token and the zero
-- time stand for "none"; the random bytes in hexadecimal are an argument, nothing if rand.Read fails.
-- A call is one step, although the code lets go of its lock while it makes a token.
pub mod Calls
use adv_cache.Prelude.{
  ℕ, ◌+◌, Bool, true, false, not, ◌&&◌, Option, none, some, List, [], ◌∷◌, ltb, if◌then◌else◌,
}
use adv_cache.Model.Binary.{Bytes}
use adv_cache.Model.Entry.{bytes_equal}
use adv_cache.Storage
use adv_cache.Storage.{Storage}

pub record ClearController : Type 0 where
  pub db : Storage
  pub token : Bytes
  pub expires : ℕ

-- NewClearController
abbrev pub new_clear_controller : Storage → ClearController
new_clear_controller db = record { db = db; token = []; expires = 0 }

pub data Answer : Type 0 where
  token_response : Bytes → ℕ → Answer
  internal_error : Answer
  forbidden : Answer
  cleared : Answer

-- 5 * time.Minute
abbrev pub token_ttl : ℕ
token_ttl = 300_000_000_000

abbrev pub is_empty : Bytes → Bool
is_empty [] = true
is_empty (_ ∷ _) = false

-- Without a token in the query: the current token, or a new one.
unfoldable pub give_token : ℕ → Option Bytes → ClearController → ClearController × Answer
give_token now fresh c =
    if not (is_empty c.token) && ltb now c.expires
    then (c, token_response c.token c.expires)
    else elim fresh [
      | none ↦ (c, internal_error)
      | some tok ↦ (
        record c { token = tok; expires = now + token_ttl },
        token_response tok (now + token_ttl),
      )
    ]

-- With a token: it is checked, and the current token is gone in any case.
unfoldable pub use_token : ℕ → Bytes → ClearController → ClearController × Answer
use_token now raw c =
    let valid = bytes_equal raw c.token && ltb now c.expires in
    let t = record c { token = []; expires = 0 } in
    if not valid then (t, forbidden) else (record t { db = Storage.clear c.db }, cleared)

unfoldable pub handle_clear : ℕ → Bytes → Option Bytes → ClearController → ClearController × Answer
unfolding give_token use_token
handle_clear now raw fresh c = if is_empty raw then give_token now fresh c else use_token now raw c

pub record Call : Type 0 where
  pub now : ℕ
  pub raw : Bytes
  pub fresh : Option Bytes

-- Calls one after the other, the last one first, each with its answer.
unfoldable pub run : List Call → ClearController → ClearController × List (Call × Answer)
run [] c = (c, [])
run (call ∷ earlier) c =
    let (t, log) = run earlier c in
    let (u, a) = handle_clear call.now call.raw call.fresh t in (u, (call, a) ∷ log)
