-- ===== src/Tests/Dumps.antt =====
-- Dump files at concrete inputs; the checksum is 7 for any bytes, the storage the list of what is set.
use adv_cache.Prelude.{ℕ, ◌≡◌, refl, Bool, true, false, List, [], ◌∷◌, ◌++◌, arith}
use adv_cache.Model.Binary.{Bytes, put_u32, put_u64}
use adv_cache.Model.Entry.{Entry, match_rule, payload_bytes}
use adv_cache.Model.ToBytes.{to_bytes}
use adv_cache.Dump.{Loading, loaded, panicked, dump_entries, load_frames}
use adv_cache.Dump.RoundTrip.{Writable, restored}
use adv_cache.Dump.Corrupt.{IsCut, load_frames-IsCut, load_frames-panics}
use adv_cache.Tests.Requests.{an_entry, an_entry-Fits, rules}

abbrev pub seven : Bytes → ℕ
seven bs = 7

abbrev pub never : ℕ → Bool
never k = false

abbrev set : Entry → List Entry → List Entry
set e s = e ∷ s

abbrev nothing : Loading (List Entry)
nothing = record { storage = []; success = 0; failures = 0 }

pub an_entry-Writable : Writable rules an_entry
unfolding match_rule to_bytes payload_bytes put_u32 put_u64
an_entry-Writable = record { fits = an_entry-Fits; known = refl; small = omega arith }

load_frames-IsCut_example :
    load_frames seven true never rules set 2
      (record {
        bytes = dump_entries seven true never 0 (an_entry ∷ []) ++ 1 ∷ 2 ∷ 3 ∷ [];
        ends_in_eof = true;
      })
      nothing
    ≡ loaded (record { storage = restored an_entry ∷ []; success = 1; failures = 1 })
load_frames-IsCut_example =
    load_frames-IsCut seven true never never rules set (λ bs. omega arith) (λ k. refl) (λ k. refl) 2
      0 (an_entry ∷ []) (1 ∷ 2 ∷ 3 ∷ []) nothing (omega arith) (an_entry-Writable, tt)
      (IsCut.in_header (omega arith) (λ e. cc e))

-- Eight bytes of zero, under a checksum of which zero is the value at no bytes.
load_frames-panics_example :
    load_frames
      (λ bs. 0)
      true
      never
      rules
      set
      1
      (record { bytes = put_u32 0 ++ (put_u32 0 ++ ([] ++ [])); ends_in_eof = true })
      nothing
    ≡ panicked
load_frames-panics_example =
    load_frames-panics (λ bs. 0) true never never rules set (λ bs. omega arith) (λ k. refl)
      (λ k. refl) 0 0 [] [] nothing refl (omega arith) (omega arith)
