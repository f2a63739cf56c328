-- ===== src/Dump/Files.antt =====
-- The files of a dump (pkg/storage/lru/dumper.go): the names that Dump gives them, and which of them
-- load takes (extractLatestTimestamp, filterFilesByTimestamp). A path is its directory and its
-- base name; the number of a shard is printed by fmt, a parameter. Strings are bytes.
pub mod Selected
pub mod Leftover
use adv_cache.Prelude.{
  ℕ, suc, ◌+◌, Bool, true, false, ◌||◌, ◌&&◌, Option, none, some, List, [], ◌∷◌, ◌++◌, length, leb,
  ◌==◌, if◌then◌else◌,
}
use adv_cache.Model.Binary.{Bytes}
use adv_cache.Model.Entry.{bytes_equal}
use adv_cache.Sort.{less}

pub record File : Type 0 where
  pub dir : Bytes
  pub base : Bytes

abbrev pub path_of : File → Bytes
path_of f = f.dir ++ (b'/' ∷ f.base)

-- strings.Split by "-": the first part and the others.
unfoldable pub split : Bytes → Bytes × List Bytes
split [] = ([], [])
split (b ∷ bs) = let (p, ps) = split bs in if b == b'-' then ([], p ∷ ps) else (b ∷ p, ps)

abbrev pub last_part : Bytes → List Bytes → Bytes
last_part p [] = p
last_part p (q ∷ qs) = last_part q qs

-- strings.TrimSuffix
unfoldable pub trim_suffix : Bytes → Bytes → Bytes
unfolding bytes_equal
trim_suffix suffix [] = []
trim_suffix suffix (b ∷ bs) =
    let rest = trim_suffix suffix bs in if bytes_equal (b ∷ bs) suffix then [] else b ∷ rest

unfoldable pub has_prefix : Bytes → Bytes → Bool
has_prefix bs [] = true
has_prefix [] (p ∷ ps) = false
has_prefix (b ∷ bs) (p ∷ ps) = b == p && has_prefix bs ps

-- strings.Contains
unfoldable pub contains : Bytes → Bytes → Bool
unfolding has_prefix
contains [] sub = has_prefix [] sub
contains (b ∷ bs) sub = has_prefix (b ∷ bs) sub || contains bs sub

abbrev pub dump_ext : Bytes
dump_ext = b'.' ∷ b'd' ∷ b'u' ∷ b'm' ∷ b'p' ∷ []

-- The timestamp that a base name ends in, if it has four parts.
unfoldable pub timestamp_of : Bytes → Option Bytes
unfolding split trim_suffix
timestamp_of base =
    let (p, ps) = split base in
    if leb 4 (suc (length ps)) then some (trim_suffix dump_ext (last_part p ps)) else none

-- The last one after sort.Strings, and "" of none.
unfoldable pub latest : List Bytes → Bytes
unfolding less
latest [] = []
latest (t ∷ ts) = if less t (latest ts) then latest ts else t

unfoldable pub timestamps : List File → List Bytes
unfolding timestamp_of
timestamps [] = []
timestamps (f ∷ files) = elim (timestamp_of f.base) [
  | none ↦ timestamps files
  | some t ↦ t ∷ timestamps files
]

unfoldable pub extract_latest_timestamp : List File → Bytes
unfolding latest timestamps
extract_latest_timestamp files = latest (timestamps files)

unfoldable pub filter_files_by_timestamp : List File → Bytes → List File
unfolding contains
filter_files_by_timestamp [] ts = []
filter_files_by_timestamp (f ∷ files) ts =
    let rest = filter_files_by_timestamp files ts in
    if contains (path_of f) ts then f ∷ rest else rest

-- The files of the directory that load opens.
unfoldable pub to_load : List File → List File
unfolding extract_latest_timestamp filter_files_by_timestamp
to_load files = filter_files_by_timestamp files (extract_latest_timestamp files)

-- "-shard-", between the name of the dumps and the number of the shard
abbrev pub shard_infix : Bytes
shard_infix = b'-' ∷ b's' ∷ b'h' ∷ b'a' ∷ b'r' ∷ b'd' ∷ b'-' ∷ []

abbrev pub ext_of : Bool → Bytes
ext_of gzip = if gzip then dump_ext ++ (b'.' ∷ b'g' ∷ b'z' ∷ []) else dump_ext

-- The file of one shard, after its renaming from the name with ".tmp".
unfoldable pub dump_file : (ℕ → Bytes) → Bytes → Bytes → Bytes → Bool → ℕ → File
dump_file print dir name timestamp gzip key = record {
  dir = dir;
  base = name ++ (shard_infix ++ (print key ++ (b'-' ∷ (timestamp ++ ext_of gzip))));
}

abbrev pub tmp : Bytes
tmp = b'.' ∷ b't' ∷ b'm' ∷ b'p' ∷ []

-- The file before its renaming.
unfoldable pub temporary_file : (ℕ → Bytes) → Bytes → Bytes → Bytes → Bool → ℕ → File
temporary_file print dir name timestamp gzip key = record {
  dir = dir;
  base = name ++ (shard_infix ++ (print key ++ (b'-' ∷ (timestamp ++ (ext_of gzip ++ tmp)))));
}
