-- ===== src/Api/Errors/Tally.antt =====
-- That each error is counted in one line (internal/cache/api/cache.go,
-- pkg/storage/lru/refresher.go).
use adv_cache.Prelude.{
  ℕ, ◌+◌, ◌≡◌, refl, ap, true, false, Bool-cases, inl, inr, List, [], ◌∷◌, ◌++◌, ltb, if◌then◌else◌,
  length, arith,
}
use adv_cache.Model.Binary.{Bytes}
use adv_cache.Model.Entry.{bytes_equal}
use adv_cache.Model.Equal.{bytes_equal→eq}
use adv_cache.Api.Errors.{
  Window, count_up, ErrorLog, log_error, swap_windows, write_lines, Step, failed, counted, ticked,
  ticked_late, written, Reach, here, next, new_error_log,
}

abbrev one : Bytes → Bytes → ℕ
one x e = if bytes_equal e x then 1 else 0

-- How often a text stands in a list, and in a window.
abbrev pub tally : Bytes → List Bytes → ℕ
tally x [] = 0
tally x (e ∷ es) = one x e + tally x es

abbrev pub tally_window : Bytes → Window → ℕ
tally_window x [] = 0
tally_window x ((t, n) ∷ w) = (if bytes_equal t x then n else 0) + tally_window x w

tally-append :
    (x : Bytes) (es : List Bytes) (e : Bytes) → tally x (es ++ e ∷ []) ≡ tally x es + one x e
tally-append x [] e = omega arith
tally-append x (d ∷ es) e = omega (arith, tally-append x es e)

tally_window-append :
    (x : Bytes) (v w : Window) → tally_window x (v ++ w) ≡ tally_window x v + tally_window x w
tally_window-append x [] w = omega arith
tally_window-append x ((t, n) ∷ v) w = omega (arith, tally_window-append x v w)

tally_window-count_up :
    (x e : Bytes) (w : Window) → tally_window x (count_up e w) ≡ tally_window x w + one x e
unfolding count_up
tally_window-count_up x e [] = omega arith
tally_window-count_up x e ((t, n) ∷ w) = elim (Bool-cases (bytes_equal t e)) [
  | inl same ↦
      let q : t ≡ e = bytes_equal→eq t e same in
      elim (Bool-cases (bytes_equal e x)) [
        | inl hit ↦ rw same (rw (q, hit) (omega arith))
        | inr miss ↦ rw same (rw (q, miss) (omega arith))
      ]
  | inr other ↦ rw other (omega (arith, tally_window-count_up x e w))
]

-- The text is in the channel, in the current window, in the one that waits for the log, or logged.
abbrev pub accounted : Bytes → ErrorLog → ℕ
accounted x l =
    tally x l.channel
    + tally_window x l.cur
    + (if l.trigger then tally_window x l.prev else 0)
    + tally_window x l.lines

record IsAccounted (x : Bytes) (l : ErrorLog) : Type 0 where
  pub sum : tally x l.received ≡ accounted x l
  pub free : l.blocked ≡ false

Step-IsAccounted :
    (x : Bytes) (room : ℕ) {l t : ErrorLog}
    → Step room false l t
    → IsAccounted x l
    → IsAccounted x t
unfolding log_error
Step-IsAccounted x room (failed e l) a = elim (Bool-cases (ltb (length l.channel) room)) [
  | inl fits ↦
      rw fits (record { sum = omega (arith, a.sum, tally-append x l.channel e); free = a.free })
  | inr full ↦ rw full a
]
Step-IsAccounted x room (counted e rest l b q) a = record {
  sum = omega (arith, a.sum, ap (tally x) q, tally_window-count_up x e l.cur);
  free = a.free;
}
Step-IsAccounted x room (ticked l b t) a = record {
  sum = let s = rw t at a.sum in omega (arith, s);
  free = a.free;
}
Step-IsAccounted x room (ticked_late l is_late b t) a = cc
Step-IsAccounted x room (written l t) a = record {
  sum =
      let s = rw t at a.sum in rw (a.free) (omega (arith, s, tally_window-append x l.prev l.lines));
  free = refl;
}

-- While each trigger is taken before the next tick: whatever errors come, are counted and written,
-- each text that had room in the channel is in the channel, in the current window, in the window
-- that waits for the log, or in a line, as many times as it came.
pub Reach-accounted_texts :
    (x : Bytes) (room : ℕ) (l : ErrorLog)
    → Reach room false new_error_log l
    → tally x l.received ≡ accounted x l
Reach-accounted_texts x room l steps = (go steps).sum
  where
    go : {l : ErrorLog} → Reach room false new_error_log l → IsAccounted x l
    go here = record { sum = refl; free = refl }
    go (next steps s) = Step-IsAccounted x room s (go steps)

-- A tick that comes before the trigger is taken: the waiting window is never written, and the next
-- one is written twice.
pub write_lines-late :
    (l : ErrorLog)
    → l.trigger ≡ true
    → (write_lines (write_lines (record (swap_windows l) { blocked = true }))).lines
      ≡ l.cur ++ (l.cur ++ l.lines)
write_lines-late l t = refl
