-- ===== src/Dump/Files/Selected.antt =====
-- Which files of a dump are loaded (pkg/storage/lru/dumper.go).
use adv_cache.Prelude.{
  ℕ, suc, ◌≡◌, ◌≢◌, refl, ap, ◌∙◌, Bool, true, false, Bool-cases, inl, inr, some, List, [], ◌∷◌,
  ◌++◌, map, length, length-append, arith, All, leb,
}
use adv_cache.Model.Binary.{Bytes}
use adv_cache.Model.Entry.{bytes_equal}
use adv_cache.Sort.{less}
use adv_cache.Dump.Files.{
  File, path_of, split, last_part, trim_suffix, has_prefix, contains, timestamp_of, latest,
  timestamps, extract_latest_timestamp, filter_files_by_timestamp, to_load, shard_infix, ext_of,
  dump_file, dump_ext,
}

abbrev shard : Bytes
shard = b's' ∷ b'h' ∷ b'a' ∷ b'r' ∷ b'd' ∷ []

-- A string without a dash.
abbrev pub IsPart : Bytes → Type 0
IsPart = All (λ b. b ≢ b'-')

split-append :
    (a b : Bytes)
    → split (a ++ (b'-' ∷ b)) ≡ ((split a).0, (split a).1 ++ ((split b).0 ∷ (split b).1))
unfolding split
split-append [] b = refl
split-append (x ∷ a) b = ground (arith, split-append a b)

split-IsPart : (b : Bytes) → IsPart b → split b ≡ (b, [])
unfolding split
split-IsPart [] w = refl
split-IsPart (x ∷ b) w = ground (arith, split-IsPart b w.1)

last_part-append : (p x y q : Bytes) (ps : List Bytes) → last_part p (ps ++ (x ∷ y ∷ q ∷ [])) ≡ q
last_part-append p x y q [] = refl
last_part-append p x y q (r ∷ ps) = last_part-append r x y q ps

has_prefix-append : (sub b : Bytes) → has_prefix (sub ++ b) sub ≡ true
unfolding has_prefix
has_prefix-append [] b = ground arith
has_prefix-append (x ∷ sub) b = ground (arith, has_prefix-append sub b)

contains-has_prefix : (bs sub : Bytes) → has_prefix bs sub ≡ true → contains bs sub ≡ true
unfolding contains
contains-has_prefix [] sub h = h
contains-has_prefix (b ∷ bs) sub h = rw h refl

contains-append : (a bs sub : Bytes) → contains bs sub ≡ true → contains (a ++ bs) sub ≡ true
unfolding contains
contains-append [] bs sub h = h
contains-append (x ∷ a) bs sub h = ground (arith, contains-append a bs sub h)

-- What TrimSuffix leaves is at the start.
trimmed : (suffix bs : Bytes) → (rest : Bytes) × (bs ≡ trim_suffix suffix bs ++ rest)
unfolding trim_suffix
trimmed suffix [] = ([], refl)
trimmed suffix (b ∷ bs) = elim (Bool-cases (bytes_equal (b ∷ bs) suffix)) [
  | inl same ↦ rw same (b ∷ bs, refl)
  | inr other ↦ let (rest, q) = trimmed suffix bs in rw other (rest, ap (◌∷◌ b) q)
]

pub less_refl : (t : Bytes) → less t t ≡ false
unfolding less
less_refl [] = refl
less_refl (x ∷ t) = ground (arith, less_refl t)

pub less_empty : (t : Bytes) → less t [] ≡ false
unfolding less
less_empty [] = refl
less_empty (x ∷ t) = refl

pub IsPart-append : (a b : Bytes) → IsPart a → IsPart b → IsPart (a ++ b)
IsPart-append [] b wa wb = wb
IsPart-append (x ∷ a) b (w, wa) wb = (w, IsPart-append a b wa wb)

pub ext_of-IsPart : (gzip : Bool) → IsPart (ext_of gzip)
ext_of-IsPart true = (
  omega arith,
  (
    omega arith,
    (omega arith, (omega arith, (omega arith, (omega arith, (omega arith, (omega arith, tt)))))),
  ),
)
ext_of-IsPart false = (omega arith, (omega arith, (omega arith, (omega arith, (omega arith, tt)))))

contains-trimmed : (suffix bs : Bytes) → contains bs (trim_suffix suffix bs) ≡ true
contains-trimmed suffix bs =
    let (rest, q) = trimmed suffix bs in
    let sub = trim_suffix suffix bs in
    ap (λ x. contains x sub) q ∙ contains-has_prefix (sub ++ rest) sub (has_prefix-append sub rest)

split-shard :
    (rest : Bytes) → split (shard ++ (b'-' ∷ rest)) ≡ (shard, (split rest).0 ∷ (split rest).1)
unfolding split
split-shard rest = refl

split-base :
    (name k last : Bytes)
    → IsPart k
    → IsPart last
    → split (name ++ (shard_infix ++ (k ++ (b'-' ∷ last))))
      ≡ ((split name).0, (split name).1 ++ (shard ∷ k ∷ last ∷ []))
split-base name k last wk wl =
    rw
      (
        split-append name (shard ++ (b'-' ∷ (k ++ (b'-' ∷ last)))),
        split-shard (k ++ (b'-' ∷ last)),
        split-append k last,
        split-IsPart k wk,
        split-IsPart last wl,
      )
      refl

timestamp_of-base :
    (name k last : Bytes)
    → IsPart k
    → IsPart last
    → timestamp_of (name ++ (shard_infix ++ (k ++ (b'-' ∷ last))))
      ≡ some (trim_suffix dump_ext last)
unfolding timestamp_of
timestamp_of-base name k last wk wl =
    let ps = (split name).1 in
    let four : leb 4 (suc (length (ps ++ (shard ∷ k ∷ last ∷ [])))) ≡ true =
      ground (arith, length-append ps (shard ∷ k ∷ last ∷ [])) in
    rw (split-base name k last wk wl, four, last_part-append (split name).0 shard k last ps) refl

-- A file with a timestamp `t` that its path has too.
pub record Has (t : Bytes) (f : File) : Type 0 where
  pub stamp : timestamp_of f.base ≡ some t
  pub named : contains (path_of f) t ≡ true

pub timestamps-stamp :
    (t : Bytes) (f : File) (files : List File)
    → timestamp_of f.base ≡ some t
    → timestamps (f ∷ files) ≡ t ∷ timestamps files
unfolding timestamps
timestamps-stamp t f files h = rw (timestamps, h) refl

latest-timestamps :
    (t : Bytes) (f : File) (files : List File)
    → All (Has t) (f ∷ files)
    → extract_latest_timestamp (f ∷ files) ≡ t
unfolding extract_latest_timestamp latest
latest-timestamps t f [] (h, _) = rw (timestamps-stamp t f [] h.stamp) (rw (less_empty t) refl)
latest-timestamps t f (g ∷ files) (h, hs) =
    rw (timestamps-stamp t f (g ∷ files) h.stamp, latest-timestamps t g files hs, less_refl t) refl

filter_files-All :
    (t : Bytes) (files : List File) → All (Has t) files → filter_files_by_timestamp files t ≡ files
unfolding filter_files_by_timestamp
filter_files-All t [] hs = refl
filter_files-All t (f ∷ files) (h, hs) = rw (h.named, filter_files-All t files hs) refl

to_load-All : (t : Bytes) (files : List File) → All (Has t) files → to_load files ≡ files
unfolding to_load
to_load-All t [] hs = refl
to_load-All t (f ∷ files) hs =
    rw (latest-timestamps t f files hs) (filter_files-All t (f ∷ files) hs)

module _ (print : ℕ → Bytes) (print-IsPart : (n : ℕ) → IsPart (print n)) where
  pub named_file-Has :
      (dir name last : Bytes) (key : ℕ)
      → IsPart last
      → Has
          (trim_suffix dump_ext last)
          (record { dir = dir; base = name ++ (shard_infix ++ (print key ++ (b'-' ∷ last))) })
  named_file-Has dir name last key w =
      let t = trim_suffix dump_ext last in
      record {
        stamp = timestamp_of-base name (print key) last (print-IsPart key) w;
        named = contains-append dir _ t (
            contains-append (b'/' ∷ name) _ t (
              contains-append shard_infix _ t (
                contains-append (print key) _ t
                  (contains-append (b'-' ∷ []) last t (contains-trimmed dump_ext last)))));
      }

  pub dump_file-Has :
      (dir name timestamp : Bytes) (gzip : Bool) (key : ℕ)
      → IsPart timestamp
      → Has
          (trim_suffix dump_ext (timestamp ++ ext_of gzip))
          (dump_file print dir name timestamp gzip key)
  unfolding dump_file
  dump_file-Has dir name timestamp gzip key w =
      named_file-Has dir name (timestamp ++ ext_of gzip) key
        (IsPart-append timestamp (ext_of gzip) w (ext_of-IsPart gzip))

  -- The files that one run of Dump leaves in its directory, whatever the name of the dumps, plain or
  -- compressed, are all of those that Load opens.
  pub to_load-dump_file :
      (dir name timestamp : Bytes) (gzip : Bool) (keys : List ℕ)
      → IsPart timestamp
      → to_load (map (dump_file print dir name timestamp gzip) keys)
        ≡ map (dump_file print dir name timestamp gzip) keys
  to_load-dump_file dir name timestamp gzip keys w = to_load-All _ _ (all keys)
    where
      all :
          (ks : List ℕ)
          → All
              (Has (trim_suffix dump_ext (timestamp ++ ext_of gzip)))
              (map (dump_file print dir name timestamp gzip) ks)
      all [] = tt
      all (k ∷ ks) = (dump_file-Has dir name timestamp gzip k w, all ks)
