-- ===== src/Api/Clear/Calls.antt =====
-- Which calls clear the storage (internal/cache/api/clear.go).
use adv_cache.Prelude.{
  ℕ, ◌+◌, ◌<◌, ◌≡◌, ◌⊎◌, inl, inr, refl, sym, ap, true, false, Option, none, some, List, [], ◌∷◌,
  arith, Bool-cases, not, ◌&&◌, ltb,
}
use adv_cache.Model.Binary.{Bytes}
use adv_cache.Model.Entry.{bytes_equal}
use adv_cache.Model.Equal.{bytes_equal→eq}
use adv_cache.Storage
use adv_cache.Storage.{Storage}
use adv_cache.Api.Clear.{
  ClearController, new_clear_controller, token_ttl, Answer, token_response, cleared, forbidden,
  internal_error, handle_clear, give_token, use_token, Call, run, is_empty,
}

-- The log, newest first, has a call that was given this token with its end five minutes later, and
-- no call with a token since then.
abbrev pub Pending : List (Call × Answer) → Bytes → ℕ → Type 0
Pending [] tok expires = ⊥
Pending ((call, a) ∷ log) tok expires =
    (call.raw ≡ [])
    × (((a ≡ token_response tok expires) × (expires ≡ call.now + token_ttl))
        ⊎ Pending log tok expires)

-- What an answer needs of the log before it.
abbrev pub Granted : Call → Answer → List (Call × Answer) → Type 0
Granted call cleared log = (expires : ℕ) × Pending log call.raw expires × (call.now < expires)
Granted call (token_response tok expires) log = Unit
Granted call internal_error log = Unit
Granted call forbidden log = Unit

abbrev pub AllGranted : List (Call × Answer) → Type 0
AllGranted [] = Unit
AllGranted ((call, a) ∷ log) = Granted call a log × AllGranted log

-- The storage cleared once for each answer that says so.
abbrev pub cleared_by : List (Call × Answer) → Storage → Storage
cleared_by [] db = db
cleared_by ((call, cleared) ∷ log) db = Storage.clear (cleared_by log db)
cleared_by ((call, token_response tok expires) ∷ log) db = cleared_by log db
cleared_by ((call, internal_error) ∷ log) db = cleared_by log db
cleared_by ((call, forbidden) ∷ log) db = cleared_by log db

-- What is kept from call to call.
record Kept (db : Storage) (c : ClearController) (log : List (Call × Answer)) : Type 0 where
  stored : c.db ≡ cleared_by log db
  pending : is_empty c.token ≡ false → Pending log c.token c.expires
  granted : AllGranted log

module _ (now : ℕ) (db : Storage) (c : ClearController) (log : List (Call × Answer))
    (k : Kept db c log) where
  give-Kept :
      (fresh : Option Bytes)
      → Kept db
          (give_token now fresh c).0
          ((record { now = now; raw = []; fresh = fresh }, (give_token now fresh c).1) ∷ log)
  unfolding give_token
  give-Kept none = elim (Bool-cases (not (is_empty c.token) && ltb now c.expires)) [
    | inl kept ↦ rw kept (record {
      stored = k.stored;
      pending = λ h. (refl, inr (k.pending h));
      granted = (tt, k.granted);
    })
    | inr new ↦ rw new (record {
      stored = k.stored;
      pending = λ h. (refl, inr (k.pending h));
      granted = (tt, k.granted);
    })
  ]
  give-Kept (some tok) = elim (Bool-cases (not (is_empty c.token) && ltb now c.expires)) [
    | inl kept ↦ rw kept (record {
      stored = k.stored;
      pending = λ h. (refl, inr (k.pending h));
      granted = (tt, k.granted);
    })
    | inr new ↦ rw new (record {
      stored = k.stored;
      pending = λ h. (refl, inl (refl, refl));
      granted = (tt, k.granted);
    })
  ]

  token-Pending :
      (b : ℕ) (raw : Bytes) → bytes_equal (b ∷ raw) c.token ≡ true → Pending log (b ∷ raw) c.expires
  token-Pending b raw same =
      let q : b ∷ raw ≡ c.token = bytes_equal→eq _ _ same in rw q (k.pending (rw (sym q) refl))

  use-Kept :
      (b : ℕ) (raw : Bytes) (fresh : Option Bytes)
      → Kept db (use_token now (b ∷ raw) c).0 (
          (record { now = now; raw = b ∷ raw; fresh = fresh }, (use_token now (b ∷ raw) c).1) ∷ log)
  unfolding use_token
  use-Kept b raw fresh = elim (Bool-cases (bytes_equal (b ∷ raw) c.token && ltb now c.expires)) [
    | inl valid ↦ rw valid (record {
      stored = ap Storage.clear k.stored;
      pending = λ h. cc;
      granted = ((c.expires, token-Pending b raw (ground arith), ground arith), k.granted);
    })
    | inr bad ↦ rw bad (record { stored = k.stored; pending = λ h. cc; granted = (tt, k.granted) })
  ]

handle_clear-Kept :
    (now : ℕ) (raw : Bytes) (fresh : Option Bytes) (db : Storage) (c : ClearController)
    (log : List (Call × Answer))
    → Kept db c log
    → Kept db
        (handle_clear now raw fresh c).0
        ((record { now = now; raw = raw; fresh = fresh }, (handle_clear now raw fresh c).1) ∷ log)
unfolding handle_clear
handle_clear-Kept now [] fresh db c log k = give-Kept now db c log k fresh
handle_clear-Kept now (b ∷ raw) fresh db c log k = use-Kept now db c log k b raw fresh

run-Kept :
    (calls : List Call) (db : Storage)
    → Kept db (run calls (new_clear_controller db)).0 (run calls (new_clear_controller db)).1
unfolding run
run-Kept [] db = record { stored = refl; pending = λ h. cc; granted = tt }
run-Kept (call ∷ earlier) db =
    let (c, log) = run earlier (new_clear_controller db) in
    handle_clear-Kept call.now call.raw call.fresh db c log (run-Kept earlier db)

-- After any calls to a new controller, one after the other, the storage has been cleared exactly
-- once for each call that was answered so, and by nothing else; each of these calls came with a
-- token that an earlier call had been given, came less than five minutes after that call, and no
-- call with a token came between the two.
pub run-AllGranted :
    (calls : List Call) (db : Storage)
    → ((run calls (new_clear_controller db)).0.db
        ≡ cleared_by (run calls (new_clear_controller db)).1 db)
      × AllGranted (run calls (new_clear_controller db)).1
run-AllGranted calls db = let k = run-Kept calls db in (k.stored, k.granted)
