-- ===== src/Sync/Walk.antt =====
-- src/sync.rs, walk_dir_with: the walk of a directory. What walkdir yields, and the metadata of a
-- path, are arguments; so is the order in which rayon's threads take the entries.
use snap_pipe.Prelude.{
  ℕ, ◌/◌, ◌%◌, ◌^◌, Bool, true, false, not, ◌&&◌, ◌||◌, Option, none, some, List, [], ◌∷◌, length,
  ltb, ◌==◌, if◌then◌else◌,
}
use snap_pipe.Prelude.Results.{Result, ok, err, ◌>>=◌, map_err}
use snap_pipe.Prelude.Int.{ℤ, pos, negsuc, ◌-ℤ◌}
use snap_pipe.Prelude.Text.{Text, codes, text_eq}
use snap_pipe.Files.{FilePath}
use snap_pipe.Sync.{Mtime, mtime_zero, is_known, FileEntry, sort_by}

abbrev pub parallel_threshold : ℕ
parallel_threshold = 100

pub data SyncError : Type 0 where
  not_a_directory : FilePath → SyncError
  walk mtime_failed : FilePath → Text → SyncError
  path_escape : Text → SyncError

-- `str::starts_with` and `str::contains`
unfoldable pub starts_with : Text → Text → Bool
starts_with s [] = true
starts_with [] (p ∷ ps) = false
starts_with (c ∷ s) (p ∷ ps) = (c == p) && starts_with s ps

unfoldable pub contains : Text → Text → Bool
contains [] pattern = starts_with [] pattern
contains (c ∷ s) pattern = starts_with (c ∷ s) pattern || contains s pattern

-- `keep` of a `WalkPredicate`
abbrev pub WalkPredicate : Type 0
WalkPredicate = Text → Bool → Bool

unfoldable pub default_predicate : WalkPredicate
default_predicate rel is_dir = not (
    starts_with rel (codes ".")
    || text_eq rel (codes ".git")
    || contains rel (codes "/.")
    || starts_with rel (codes "./.git"))

-- A `SystemTime`, in nanoseconds since the Unix epoch.
abbrev pub SystemTime : Type 0
SystemTime = ℤ

-- `as i64` of a `u64`
abbrev pub as_i64 : ℕ → ℤ
as_i64 n = if ltb n (2 ^ 63) then pos n else pos n -ℤ pos (2 ^ 64)

unfoldable pub from_system_time : SystemTime → Option Mtime
from_system_time (pos n) =
    some (record { secs = as_i64 (n / 1_000_000_000); nanos = n % 1_000_000_000 })
from_system_time (negsuc n) = none

-- `std::fs::Metadata`
pub record Metadata : Type 0 where
  pub is_directory : Bool
  pub len : ℕ
  pub modified : Option SystemTime
  pub unix_mode : ℕ

unfoldable pub from_metadata : Metadata → Option Mtime
from_metadata meta = elim meta.modified [ some t ↦ from_system_time t | none ↦ none ]

-- `mode & 0o111`, tested bit by bit
abbrev pub is_executable : ℕ → Bool
is_executable mode = (mode % 2 == 1) || (mode / 8 % 2 == 1) || (mode / 64 % 2 == 1)

abbrev pub or_zero : Option Mtime → Mtime
or_zero (some t) = t
or_zero none = mtime_zero

unfoldable pub build_entry : Text → Metadata → FileEntry
build_entry rel meta = record {
  path = rel;
  size = meta.len;
  mtime = or_zero (from_metadata meta);
  executable = is_executable meta.unix_mode;
  mode = meta.unix_mode;
}

-- `file_type` of an entry, which does not follow links
pub data FileType : Type 0 where
  directory regular symlink other : FileType

abbrev pub is_dir : FileType → Bool
is_dir directory = true
is_dir regular = false
is_dir symlink = false
is_dir other = false

-- An entry of walkdir; `relative` is its path behind the root, with `/` for `\`, if it has one.
pub record DirEntry : Type 0 where
  pub full_path : FilePath
  pub relative : Option Text
  pub file_type : FileType

-- What the iterator yields: an error may have a path.
abbrev pub WalkItem : Type 0
WalkItem = Result DirEntry (Option FilePath × Text)

abbrev pub walk_error : FilePath → Option FilePath × Text → SyncError
walk_error root (some path, message) = walk path message
walk_error root (none, message) = walk root message

-- An entry that the predicate keeps goes to the list.
abbrev pub kept : WalkPredicate → DirEntry → List DirEntry → List DirEntry
kept predicate e rest = elim e.relative [
  | none ↦ rest
  | some rel ↦ if predicate rel (is_dir e.file_type) then e ∷ rest else rest
]

-- The first phase.
unfoldable pub enumerate :
    FilePath → WalkPredicate → List WalkItem → Result (List DirEntry) SyncError
enumerate root predicate [] = ok []
enumerate root predicate (err e ∷ items) = err (walk_error root e)
enumerate root predicate (ok e ∷ items) = do
  rest ← enumerate root predicate items
  ok (kept predicate e rest)

module _ (metadata : FilePath → Result Metadata Text) where
  -- An entry below the root that is not a directory, with the metadata of what it leads to.
  unfoldable pub described : FilePath → Text → Result (Option FileEntry) SyncError
  described path [] = ok none
  described path (c ∷ rel) = do
    meta ← map_err (walk path) (metadata path)
    ok (some (build_entry (c ∷ rel) meta))

  -- What the second phase does with an entry.
  unfoldable pub record_entry : DirEntry → Result (Option FileEntry) SyncError
  record_entry e = if is_dir e.file_type then ok none else elim e.relative [
    | none ↦ err (path_escape e.full_path)
    | some rel ↦ described e.full_path rel
  ]

  abbrev pub push : Option FileEntry → List FileEntry → List FileEntry
  push none out = out
  push (some entry) out = entry ∷ out

  -- The second phase on the entries in some order; the first error ends it.
  unfoldable pub gather : List DirEntry → Result (List FileEntry) SyncError
  gather [] = ok []
  gather (e ∷ entries) = do entry ← record_entry e; rest ← gather entries; ok (push entry rest)

  -- The order of the threads above the threshold
  abbrev pub scheduled : (List DirEntry → List DirEntry) → List DirEntry → List DirEntry
  scheduled schedule entries =
      if ltb parallel_threshold (length entries) then schedule entries else entries

  -- `walk_dir_with` below a root that is a directory
  unfoldable pub walk_tree :
      (List DirEntry → List DirEntry)
      → FilePath
      → WalkPredicate
      → List WalkItem
      → Result (List FileEntry) SyncError
  walk_tree schedule root predicate items = do
    entries ← enumerate root predicate items
    out ← gather (scheduled schedule entries)
    ok (sort_by (λ e. e.path) out)

  unfoldable pub walk_dir_with :
      (List DirEntry → List DirEntry)
      → FilePath
      → WalkPredicate
      → List WalkItem
      → Result (List FileEntry) SyncError
  walk_dir_with schedule root predicate items = do
    meta ← map_err (walk root) (metadata root)
    if meta.is_directory
        then walk_tree schedule root predicate items
        else err (not_a_directory root)

  unfoldable pub walk_dir :
      (List DirEntry → List DirEntry) → FilePath → List WalkItem → Result (List FileEntry) SyncError
  walk_dir schedule root items = walk_dir_with schedule root default_predicate items

-- `apply_mtime`, on a file system that a call of `set_file_mtime` changes.
unfoldable pub apply_mtime :
    {D : Type 0}
    → (D → FilePath → ℤ → ℕ → Result D Text)
    → D
    → FilePath
    → Mtime
    → Result D SyncError
apply_mtime set_file_mtime disk path mtime =
    let set = map_err (mtime_failed path) (set_file_mtime disk path mtime.secs mtime.nanos) in
    if not (is_known mtime) then ok disk else set
