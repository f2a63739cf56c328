-- ===== src/Dump/Files/Leftover.antt =====
-- What a file that was not renamed does to a load (pkg/storage/lru/dumper.go: Dump writes to a name
-- with ".tmp" and renames it at the end).
use adv_cache.Prelude.{
  ℕ, ◌≡◌, refl, ap, Bool, true, false, inl, inr, ◌⊎◌, List, some, [], ◌∷◌, ◌++◌, map, length,
  length-append, arith, All, ◌<◌, ◌≤◌,
}
use adv_cache.Model.Binary.{Bytes}
use adv_cache.Model.Entry.{bytes_equal}
use adv_cache.Sort.{less}
use adv_cache.Dump.Files.{
  File, path_of, trim_suffix, contains, timestamp_of, latest, timestamps, extract_latest_timestamp,
  filter_files_by_timestamp, to_load, dump_file, temporary_file, dump_ext, ext_of, tmp,
}
use adv_cache.Dump.Files.Selected.{
  IsPart, IsPart-append, less_empty, less_refl, timestamps-stamp, ext_of-IsPart, named_file-Has,
  dump_file-Has, Has,
}

bytes_equal-length : (a b : Bytes) → length b < length a → bytes_equal a b ≡ false
unfolding bytes_equal
bytes_equal-length [] b h = absurd (omega arith)
bytes_equal-length (x ∷ a) [] h = refl
bytes_equal-length (x ∷ a) (y ∷ b) h = ground (arith, bytes_equal-length a b)

trim_suffix-append :
    (suffix a b : Bytes)
    → length suffix ≤ length b
    → trim_suffix suffix (a ++ b) ≡ a ++ trim_suffix suffix b
unfolding trim_suffix
trim_suffix-append suffix [] b h = refl
trim_suffix-append suffix (x ∷ a) b h =
    rw
      (
        bytes_equal-length (x ∷ (a ++ b)) suffix (omega (arith, length-append a b)),
        trim_suffix-append suffix a b h,
      )
      refl

less-append : (a b : Bytes) → less (a ++ b) a ≡ false
unfolding less
less-append [] b = less_empty b
less-append (x ∷ a) b = ground (arith, less-append a b)

less-longer : (a b : Bytes) (x : ℕ) → less a (a ++ (x ∷ b)) ≡ true
unfolding less
less-longer [] b x = refl
less-longer (y ∷ a) b x = ground (arith, less-longer a b x)

append_assoc : (a b c : Bytes) → a ++ (b ++ c) ≡ (a ++ b) ++ c
append_assoc [] b c = refl
append_assoc (x ∷ a) b c = ap (◌∷◌ x) (append_assoc a b c)

append_nil : (a : Bytes) → a ++ [] ≡ a
append_nil [] = refl
append_nil (x ∷ a) = ap (◌∷◌ x) (append_nil a)

-- The stamps of the files of one dump, before and after their renaming.
abbrev renamed : Bytes → Bool → Bytes
renamed t gzip = trim_suffix dump_ext (t ++ ext_of gzip)

abbrev pub unrenamed : Bytes → Bool → Bytes
unrenamed t gzip = t ++ (ext_of gzip ++ tmp)

stamp_temporary :
    (t : Bytes) (gzip : Bool) → trim_suffix dump_ext (unrenamed t gzip) ≡ unrenamed t gzip
unfolding trim_suffix bytes_equal
stamp_temporary t true = trim_suffix-append dump_ext t (ext_of true ++ tmp) (omega arith)
stamp_temporary t false = trim_suffix-append dump_ext t (ext_of false ++ tmp) (omega arith)

unrenamed-renamed :
    (t : Bytes) (gzip : Bool)
    → (x : ℕ) × (rest : Bytes) × (unrenamed t gzip ≡ renamed t gzip ++ (x ∷ rest))
unfolding trim_suffix bytes_equal
unrenamed-renamed t true = (
  b'.',
  b't' ∷ b'm' ∷ b'p' ∷ [],
  rw (trim_suffix-append dump_ext t (ext_of true) (omega arith)) (append_assoc t (ext_of true) tmp),
)
unrenamed-renamed t false = (
  b'.',
  b'd' ∷ b'u' ∷ b'm' ∷ b'p' ∷ tmp,
  rw (trim_suffix-append dump_ext t (ext_of false) (omega arith), append_nil t) refl,
)

tmp-IsPart : IsPart tmp
tmp-IsPart = (omega arith, (omega arith, (omega arith, (omega arith, tt))))

module _ (print : ℕ → Bytes) (print-IsPart : (n : ℕ) → IsPart (print n)) where
  temporary_file-Has :
      (dir name timestamp : Bytes) (gzip : Bool) (key : ℕ)
      → IsPart timestamp
      → Has (unrenamed timestamp gzip) (temporary_file print dir name timestamp gzip key)
  unfolding temporary_file
  temporary_file-Has dir name timestamp gzip key w = rw (stamp_temporary timestamp gzip) at (
      named_file-Has print print-IsPart dir name (unrenamed timestamp gzip) key (
        IsPart-append timestamp (ext_of gzip ++ tmp) w
          (IsPart-append (ext_of gzip) tmp (ext_of-IsPart gzip) tmp-IsPart)))

-- Files of two stamps, of which the second is the later one and in no path of the first.
module _ (t : Bytes) (x : ℕ) (rest : Bytes) where
  abbrev later : Bytes
  later = t ++ (x ∷ rest)

  pub record Earlier (f : File) : Type 0 where
    pub stamp : timestamp_of f.base ≡ some t
    pub lacks : contains (path_of f) later ≡ false

  latest-cases :
      (files : List File)
      → All Earlier files
      → (latest (timestamps files) ≡ []) ⊎ (latest (timestamps files) ≡ t)
  unfolding latest timestamps
  latest-cases [] hs = inl refl
  latest-cases (f ∷ files) (h, hs) = elim (latest-cases files hs) [
    | inl e ↦ inr (rw (timestamps-stamp t f files h.stamp, e, less_empty t) refl)
    | inr e ↦ inr (rw (timestamps-stamp t f files h.stamp, e, less_refl t) refl)
  ]

  latest-after :
      (files : List File) → All Earlier files → less later (latest (timestamps files)) ≡ false
  latest-after files hs = elim (latest-cases files hs) [
    | inl e ↦ rw e (less_empty later)
    | inr e ↦ rw e (less-append t (x ∷ rest))
  ]

  latest-Earlier :
      (before : List File) (f : File) (after : List File)
      → All Earlier before
      → Has later f
      → All Earlier after
      → latest (timestamps (before ++ (f ∷ after))) ≡ later
  unfolding latest
  latest-Earlier [] f after hb h ha =
      rw (timestamps-stamp later f after h.stamp, latest-after after ha) refl
  latest-Earlier (g ∷ before) f after (e, hb) h ha =
      rw
        (
          timestamps-stamp t g (before ++ (f ∷ after)) e.stamp,
          latest-Earlier before f after hb h ha,
          less-longer t rest x,
        )
        refl

  filter_files-Earlier :
      (files : List File) → All Earlier files → filter_files_by_timestamp files later ≡ []
  unfolding filter_files_by_timestamp
  filter_files-Earlier [] hs = refl
  filter_files-Earlier (f ∷ files) (h, hs) = rw (h.lacks, filter_files-Earlier files hs) refl

  filter_files-one :
      (before : List File) (f : File) (after : List File)
      → All Earlier before
      → Has later f
      → All Earlier after
      → filter_files_by_timestamp (before ++ (f ∷ after)) later ≡ f ∷ []
  unfolding filter_files_by_timestamp
  filter_files-one [] f after hb h ha = rw (h.named, filter_files-Earlier after ha) refl
  filter_files-one (g ∷ before) f after (e, hb) h ha =
      rw (e.lacks, filter_files-one before f after hb h ha) refl

  to_load-Earlier :
      (before : List File) (f : File) (after : List File)
      → All Earlier before
      → Has later f
      → All Earlier after
      → to_load (before ++ (f ∷ after)) ≡ f ∷ []
  unfolding to_load extract_latest_timestamp
  to_load-Earlier before f after hb h ha =
      rw (latest-Earlier before f after hb h ha) (filter_files-one before f after hb h ha)

module _ (print : ℕ → Bytes) (print-IsPart : (n : ℕ) → IsPart (print n)) where
  -- No path of a complete file has the timestamp of the temporary ones.
  abbrev pub Lacks : Bytes → Bytes → Bytes → Bool → ℕ → Type 0
  Lacks dir name timestamp gzip k =
      contains (path_of (dump_file print dir name timestamp gzip k)) (unrenamed timestamp gzip)
      ≡ false

  -- If in the directory of a dump one file was left with the ending ".tmp", and no path of the others
  -- contains its timestamp with this ending, then Load opens this file alone, and none of the
  -- complete ones.
  pub to_load-temporary_file :
      (dir name timestamp : Bytes) (gzip : Bool) (before : List ℕ) (key : ℕ) (after : List ℕ)
      → IsPart timestamp
      → All (Lacks dir name timestamp gzip) before
      → All (Lacks dir name timestamp gzip) after
      → to_load (
          map (dump_file print dir name timestamp gzip) before
          ++ (temporary_file print dir name timestamp gzip key
              ∷ map (dump_file print dir name timestamp gzip) after))
        ≡ temporary_file print dir name timestamp gzip key ∷ []
  to_load-temporary_file dir name timestamp gzip before key after w lb la =
      let (x, rest, q) = unrenamed-renamed timestamp gzip in
      to_load-Earlier (renamed timestamp gzip) x rest _ _ _ (all x rest q before lb)
        (rw q at (temporary_file-Has print print-IsPart dir name timestamp gzip key w))
        (all x rest q after la)
    where
      all :
          (x : ℕ) (rest : Bytes)
          → unrenamed timestamp gzip ≡ renamed timestamp gzip ++ (x ∷ rest)
          → (ks : List ℕ) → All (Lacks dir name timestamp gzip) ks
          → All
              (Earlier (renamed timestamp gzip) x rest)
              (map (dump_file print dir name timestamp gzip) ks)
      all x rest q [] _ = tt
      all x rest q (k ∷ ks) (lacks, ls) = (
        record {
          stamp = (dump_file-Has print print-IsPart dir name timestamp gzip k w).stamp;
          lacks = rw q at lacks;
        },
        all x rest q ks ls,
      )
