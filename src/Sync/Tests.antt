-- ===== src/Sync/Tests.antt =====
-- The theorem on differences at concrete files.
use snap_pipe.Prelude.{ℕ, ◌≡◌, ◌↔◌, refl, true, false, none, some, length, List, [], ◌∷◌}
use snap_pipe.Prelude.Text.{Text, codes, text_eq}
use snap_pipe.Prelude.Map.{lookup, insert}
use snap_pipe.Sync.{
  FileEntry, mtime_zero, signature_changed, le_path, insert_sorted, sort_by, collected,
  compare_entries, removed_entries, diff_entries,
}
use snap_pipe.Sync.Sort.{find, UniquePaths}
use snap_pipe.Sync.Walk.{
  DirEntry, FileType, directory, regular, symlink, WalkItem, Metadata, starts_with, contains,
  default_predicate, from_system_time, from_metadata, build_entry, enumerate, described,
  record_entry, gather, walk_tree, walk_dir_with,
}
use snap_pipe.Sync.Parallel.{walk_dir_with_schedules}
use snap_pipe.Sync.Listed.{Lists, walk_dir_with-Lists}
use snap_pipe.Files.{FilePath}
use snap_pipe.Prelude.Results.{Result, ok}
use snap_pipe.Prelude.Int.{pos}
use mathlib.Core.List.{reverse}
use mathlib.Core.List.Permᴰ
use snap_pipe.Sync.Diff.{last_entry, added_as, modified_as, diff_entries-find}

file : Text → ℕ → FileEntry
file path size = record {
  path = path;
  size = size;
  mtime = mtime_zero;
  executable = false;
  mode = 0;
}

abbrev source : List FileEntry
source = file (codes "b") 1 ∷ file (codes "a") 1 ∷ []

abbrev target : List FileEntry
target = file (codes "c") 1 ∷ file (codes "b") 2 ∷ []

small_diff : diff_entries source target ≡ (
  file (codes "c") 1 ∷ [],
  file (codes "a") 1 ∷ [],
  (file (codes "b") 1, file (codes "b") 2) ∷ [],
)
unfolding diff_entries collected compare_entries removed_entries signature_changed sort_by
    insert_sorted le_path lookup insert text_eq file
small_diff = refl

diff_entries-find_example :
    let (added, removed, modified) = diff_entries source target in
    (find (λ (e : FileEntry). e.path) (codes "b") added
      ≡ added_as (last_entry (codes "b") source none) (last_entry (codes "b") target none))
    × (find (λ (e : FileEntry). e.path) (codes "b") removed
        ≡ added_as (last_entry (codes "b") target none) (last_entry (codes "b") source none))
    × (find (λ (d : FileEntry × FileEntry). d.0.path) (codes "b") modified
        ≡ modified_as (last_entry (codes "b") source none) (last_entry (codes "b") target none))
diff_entries-find_example = diff_entries-find source target (codes "b")

-- A directory with a file, a hidden file and a link; the schedule turns the entries round.
abbrev entry : Text → Text → FileType → DirEntry
entry full rel kind = record { full_path = full; relative = some rel; file_type = kind }

abbrev items : List WalkItem
items =
    ok (entry (codes "/r") [] directory)
    ∷ ok (entry (codes "/r/b") (codes "b") symlink)
    ∷ ok (entry (codes "/r/.g") (codes ".g") regular)
    ∷ ok (entry (codes "/r/a") (codes "a") regular)
    ∷ []

abbrev sizes : FilePath → Result Metadata Text
sizes path = ok (record {
  is_directory = text_eq path (codes "/r");
  len = length path;
  modified = some (pos 1_500_000_000);
  unix_mode = 0;
})

abbrev stamped : Text → ℕ → FileEntry
stamped path size = record {
  path = path;
  size = size;
  mtime = record { secs = pos 1; nanos = 500_000_000 };
  executable = false;
  mode = 0;
}

abbrev walked : List FileEntry
walked = stamped (codes "a") 4 ∷ stamped (codes "b") 4 ∷ []

walk_small : walk_dir_with sizes (λ l. l) (codes "/r") default_predicate items ≡ ok walked
unfolding walk_dir_with walk_tree enumerate gather record_entry described default_predicate
    starts_with contains text_eq build_entry from_metadata from_system_time sort_by insert_sorted
    le_path
walk_small = refl

walked_unique : UniquePaths (λ (e : FileEntry). e.path) walked
walked_unique = (unfold find text_eq in refl, (unfold find in refl, tt))

walk_dir_with_schedules_example :
    (walk_dir_with sizes (λ l. l) (codes "/r") default_predicate items ≡ ok walked)
    ↔ (walk_dir_with sizes reverse (codes "/r") default_predicate items ≡ ok walked)
walk_dir_with_schedules_example =
    walk_dir_with_schedules sizes reverse (codes "/r") default_predicate items walked
      (λ l. Permᴰ.reverse l) walked_unique

walk_dir_with-Lists_example :
    ((meta : Metadata) × (sizes (codes "/r") ≡ ok meta) × (meta.is_directory ≡ true))
    × Lists sizes default_predicate items walked
walk_dir_with-Lists_example =
    walk_dir_with-Lists sizes default_predicate items (λ l. l) (codes "/r") walked
      (λ l. Permᴰ.refl l) walk_small
