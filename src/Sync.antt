-- ===== src/Sync.antt =====
-- src/sync.rs: what describes a file, and the difference of two lists of files.
pub mod Sort
pub mod Diff
pub mod Order
pub mod Walk
pub mod Parallel
pub mod Sorted
pub mod Listing
pub mod Recorded
pub mod Listed
mod Tests
use snap_pipe.Prelude.{
  ℕ, ◌%◌, ◌*◌, Bool, true, false, not, ◌&&◌, ◌||◌, Option, none, some, List, [], ◌∷◌, ltb, ◌==◌,
  if◌then◌else◌,
}
use snap_pipe.Prelude.Int.{ℤ, pos, ltb_ℤ, eqb_ℤ}
use snap_pipe.Prelude.Text.{Text}
use snap_pipe.Prelude.Map.{HashMap, lookup, contains_key, insert}

pub record Mtime : Type 0 where
  pub secs : ℤ
  pub nanos : ℕ

abbrev pub mtime_zero : Mtime
mtime_zero = record { secs = pos 0; nanos = 0 }

abbrev pub is_known : Mtime → Bool
is_known t = ltb_ℤ (pos 0) t.secs || ltb 0 t.nanos

pub record FileEntry : Type 0 where
  pub path : Text
  pub size : ℕ
  pub mtime : Mtime
  pub executable : Bool
  pub mode : ℕ

unfoldable pub signature_changed : FileEntry → FileEntry → Bool
signature_changed a b =
    not (a.size == b.size)
    || not (eqb_ℤ a.mtime.secs b.mtime.secs && (a.mtime.nanos == b.mtime.nanos))
    || not (a.mode == b.mode)

-- `str::cmp`; the order of UTF-8 is the one of the code points.
unfoldable pub le_path : Text → Text → Bool
le_path [] t = true
le_path (c ∷ s) [] = false
le_path (c ∷ s) (d ∷ t) = ltb c d || ((c == d) && le_path s t)

module _ {A : Type 0} (key : A → Text) where
  unfoldable pub insert_sorted : A → List A → List A
  insert_sorted a [] = a ∷ []
  insert_sorted a (b ∷ bs) = if le_path (key a) (key b) then a ∷ b ∷ bs else b ∷ insert_sorted a bs

  -- `sort_by` on a text, as a stable insertion sort
  unfoldable pub sort_by : List A → List A
  sort_by [] = []
  sort_by (a ∷ xs) = insert_sorted a (sort_by xs)

-- `.map(|e| (e.path, e)).collect()` into a map; a later entry of a path replaces an earlier one.
unfoldable pub collected : List FileEntry → HashMap FileEntry → HashMap FileEntry
collected [] m = m
collected (e ∷ es) m = collected es (insert e.path e m)

-- The loop over the target's map: what was added and what was modified.
unfoldable pub compare_entries :
    HashMap FileEntry → HashMap FileEntry → List FileEntry × List (FileEntry × FileEntry)
compare_entries source_map [] = ([], [])
compare_entries source_map ((path, entry) ∷ rest) =
    let (added, modified) = compare_entries source_map rest in
    elim (lookup path source_map) [
      | none ↦ (entry ∷ added, modified)
      | some prev ↦
          (added, if signature_changed prev entry then (prev, entry) ∷ modified else modified)
    ]

-- The loop over the source's map: what was removed.
unfoldable pub removed_entries : HashMap FileEntry → HashMap FileEntry → List FileEntry
removed_entries target_map [] = []
removed_entries target_map ((path, entry) ∷ rest) =
    let removed = removed_entries target_map rest in
    if not (contains_key path target_map) then entry ∷ removed else removed

unfoldable pub diff_entries :
    List FileEntry → List FileEntry → List FileEntry × List FileEntry × List (FileEntry × FileEntry)
diff_entries source target =
    let source_map = collected source [] in
    let target_map = collected target [] in
    let (added, modified) = compare_entries source_map target_map in
    let removed = removed_entries target_map source_map in
    (sort_by (λ e. e.path) added, sort_by (λ e. e.path) removed, sort_by (λ p. p.0.path) modified)
