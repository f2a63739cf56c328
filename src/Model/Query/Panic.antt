-- ===== src/Model/Query/Panic.antt =====
-- A query string that the parser does not survive (pkg/model/query.go).
use adv_cache.Prelude.{
  ℕ, ◌+◌, ◌≡◌, ◌≢◌, refl, true, false, Bool-cases, inl, inr, none, some, [], ◌∷◌, arith, ◌==◌,
  length,
}
use adv_cache.Model.Binary.{Bytes}
use adv_cache.Model.Query.{
  trim_left, slice, State, pair_at, next_state, emit, scan, start, parse_query,
}

-- The state after "=c": the value begins where the key does, so the key would end before it begins.
abbrev Crossed : State → Type 0
Crossed s = (s.k_found ≡ true) × (s.v_found ≡ true) × (s.k_idx ≡ 1) × (s.v_idx ≡ 1)

pair_at-Crossed : (b : Bytes) (idx : ℕ) (s : State) → Crossed s → pair_at b idx s ≡ none
unfolding pair_at slice
pair_at-Crossed b idx s h = ground arith

emit-Crossed :
    (b : Bytes) (idx c : ℕ) (s : State) → Crossed s → (c == b'&') ≡ true → emit b idx c s ≡ none
unfolding emit pair_at
emit-Crossed b idx c s h amp = rw (amp, h.0) (rw (pair_at-Crossed b idx s h) refl)

emit-quiet : (b : Bytes) (idx c : ℕ) (s : State) → (c == b'&') ≡ false → emit b idx c s ≡ some []
unfolding emit
emit-quiet b idx c s other = rw other refl

next_state-Crossed :
    (idx c : ℕ) (s : State) → Crossed s → (c == b'&') ≡ false → Crossed (next_state idx c s)
next_state-Crossed idx c s h other = ground arith

scan-Crossed :
    (b : Bytes) (idx : ℕ) (rest : Bytes) (s : State) → Crossed s → scan b idx rest s ≡ none
unfolding scan pair_at
scan-Crossed b idx [] s h = rw h.0 (rw (pair_at-Crossed b (length b) s h) refl)
scan-Crossed b idx (c ∷ rest) s h = elim (Bool-cases (c == b'&')) [
  | inl amp ↦ rw (emit-Crossed b idx c s h amp) refl
  | inr other ↦
      rw
        (
          emit-quiet b idx c s other,
          scan-Crossed b (idx + 1) rest (next_state idx c s) (next_state-Crossed idx c s h other),
        )
        refl
]

first-Crossed : (c : ℕ) → (c == b'&') ≡ false → Crossed (next_state 1 c (next_state 0 b'=' start))
first-Crossed c other = ground arith

-- A query that begins with an equals sign and then another byte than an ampersand makes the parser
-- slice out of range, whatever follows.
pub parse_query-panics : (c : ℕ) (rest : Bytes) → c ≢ b'&' → parse_query (b'=' ∷ c ∷ rest) ≡ none
unfolding parse_query scan trim_left emit
parse_query-panics c rest h =
    let other : (c == b'&') ≡ false = ground arith in
    rw
      (
        emit-quiet (b'=' ∷ c ∷ rest) 1 c (next_state 0 b'=' start) other,
        scan-Crossed (b'=' ∷ c ∷ rest) 2 rest (next_state 1 c (next_state 0 b'=' start))
            (first-Crossed c other),
      )
      refl
