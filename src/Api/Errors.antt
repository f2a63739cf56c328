-- ===== src/Api/Errors.antt =====
-- The logger that counts equal errors, in the main handler (internal/cache/api/cache.go: logError,
-- runErrorLogger) and in the refresher (pkg/storage/lru/refresher.go: runDedupErrorLogger). A window
-- is a map from texts to counts; `prev` is the window that the goroutine with the log writes when it
-- takes a trigger, of which the channel holds one. The loop waits while it sends a second one.
pub mod Tally
use adv_cache.Prelude.{
  ℕ, ◌+◌, ◌≡◌, Bool, true, false, List, [], ◌∷◌, ◌++◌, ltb, if◌then◌else◌, length,
}
use adv_cache.Model.Binary.{Bytes}
use adv_cache.Model.Entry.{bytes_equal}

abbrev pub Window : Type 0
Window = List (Bytes × ℕ)

-- (*cur)[err.Error()]++
unfoldable pub count_up : Bytes → Window → Window
unfolding bytes_equal
count_up e [] = (e, 1) ∷ []
count_up e ((t, n) ∷ w) =
    let rest = count_up e w in if bytes_equal t e then (t, n + 1) ∷ w else (t, n) ∷ rest

-- The channel of the errors, the two windows, the channel of the trigger, and whether the loop waits
-- to send a trigger. `received` and `lines` keep what went in and what was written.
pub record ErrorLog : Type 0 where
  pub channel : List Bytes
  pub cur : Window
  pub prev : Window
  pub trigger : Bool
  pub blocked : Bool
  pub received : List Bytes
  pub lines : Window

-- logError, while the context is not done: without room in the channel the error is dropped.
unfoldable pub log_error : ℕ → Bytes → ErrorLog → ErrorLog
log_error room e l =
    if ltb (length l.channel) room
    then record l { channel = l.channel ++ e ∷ []; received = e ∷ l.received }
    else l

abbrev pub count_error : Bytes → List Bytes → ErrorLog → ErrorLog
count_error e rest l = record l { channel = rest; cur = count_up e l.cur }

-- each5Secs
abbrev pub swap_windows : ErrorLog → ErrorLog
swap_windows l = record l { prev = l.cur; cur = [] }

abbrev pub write_lines : ErrorLog → ErrorLog
write_lines l = record l { lines = l.prev ++ l.lines; trigger = l.blocked; blocked = false }

-- `late` is whether a tick may come before the last trigger has been taken.
pub data Step (room : ℕ) (late : Bool) : ErrorLog → ErrorLog → Type 0 where
  failed : (e : Bytes) (l : ErrorLog) → Step room late l (log_error room e l)
  counted :
      (e : Bytes) (rest : List Bytes) (l : ErrorLog)
      → l.blocked ≡ false
      → l.channel ≡ e ∷ rest
      → Step room late l (count_error e rest l)
  ticked :
      (l : ErrorLog)
      → l.blocked ≡ false
      → l.trigger ≡ false
      → Step room late l (record (swap_windows l) { trigger = true })
  ticked_late :
      (l : ErrorLog)
      → late ≡ true
      → l.blocked ≡ false
      → l.trigger ≡ true
      → Step room late l (record (swap_windows l) { blocked = true })
  written : (l : ErrorLog) → l.trigger ≡ true → Step room late l (write_lines l)

pub data Reach (room : ℕ) (late : Bool) (l : ErrorLog) : ErrorLog → Type 0 where
  here : Reach room late l l
  next : {t u : ErrorLog} → Reach room late l t → Step room late t u → Reach room late l u

abbrev pub new_error_log : ErrorLog
new_error_log = record {
  channel = [];
  cur = [];
  prev = [];
  trigger = false;
  blocked = false;
  received = [];
  lines = [];
}
