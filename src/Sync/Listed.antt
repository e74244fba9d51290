-- ===== src/Sync/Listed.antt =====
-- src/sync.rs, walk_dir_with: the list of a walk against what walkdir yielded.
use snap_pipe.Prelude.{
  ◌≡◌, ◌≢◌, refl, sym, ap, ◌∙◌, subst, Bool, true, false, Option, some, List, [], ◌∷◌, length, ltb,
  Bool-cases, inl, inr, if◌then◌else◌,
}
use mathlib.Core.List.{Permᴰ, Memᴰ}
use mathlib.Core.List.Permᴰ
use mathlib.Core.List.Memᴰ
use snap_pipe.Prelude.Results.{Result, ok, err, map_err, map_err-ok, ◌>>=◌, >>=-eq-ok, ok-injective}
use snap_pipe.Prelude.Text.{Text}
use snap_pipe.Files.{FilePath}
use snap_pipe.Sync.{FileEntry, sort_by}
use snap_pipe.Sync.Order.{sort_by_permutes}
use snap_pipe.Sync.Sorted.{mem-Perm, IsSorted, sort_by-IsSorted}
use snap_pipe.Sync.Walk.{
  SyncError, walk, not_a_directory, WalkPredicate, Metadata, DirEntry, WalkItem, is_dir, enumerate,
  build_entry, described, record_entry, gather, scheduled, walk_tree, walk_dir_with,
  parallel_threshold,
}
use snap_pipe.Sync.Parallel.{gather_first}
use snap_pipe.Sync.Listing.{IsKept, AllRead, enumerate-AllRead, enumerate-IsKept, enumerate_all}
use snap_pipe.Sync.Recorded.{Describes, record_entry-Describes, gather_source, gather_all}

module _ (metadata : FilePath → Result Metadata Text) where
  described-some :
      (path : FilePath) (rel : Text) (o : Option FileEntry)
      → rel ≢ []
      → described metadata path rel ≡ ok o
      → (x : FileEntry) × (o ≡ some x)
  unfolding described
  described-some path [] o below h = absurd (below refl)
  described-some path (c ∷ rel) o below h =
      let (meta, hm, same) =
        >>=-eq-ok (map_err (walk path) (metadata path))
          (λ meta. ok (some (build_entry (c ∷ rel) meta))) h in
      (build_entry (c ∷ rel) meta, sym (ok-injective same))

  record_entry_file :
      (e : DirEntry) (rel : Text)
      → is_dir e.file_type ≡ false
      → e.relative ≡ some rel
      → record_entry metadata e ≡ described metadata e.full_path rel
  unfolding record_entry
  record_entry_file e rel hb ho = rw (hb, ho) refl

  -- A file's entry below the root, of which the second phase has made something, has its record.
  recorded_some :
      (e : DirEntry) (rel : Text) (o : Option FileEntry)
      → is_dir e.file_type ≡ false
      → e.relative ≡ some rel
      → rel ≢ []
      → record_entry metadata e ≡ ok o
      → (x : FileEntry) × (o ≡ some x)
  recorded_some e rel o hb ho below h =
      described-some e.full_path rel o below (sym (record_entry_file e rel hb ho) ∙ h)

  gather_done :
      (entries : List DirEntry) (out : List FileEntry) (e : DirEntry)
      → gather metadata entries ≡ ok out
      → Memᴰ e entries
      → (o : Option FileEntry) × (record_entry metadata e ≡ ok o)
  gather_done [] out e h m = absurd (Memᴰ.not-nil m)
  gather_done (d ∷ entries) out e h (Memᴰ.head here) =
      let (o, rest, ho, hr, same) = gather_first metadata d entries out h in
      (o, ap (record_entry metadata) here ∙ ho)
  gather_done (d ∷ entries) out e h (Memᴰ.tail m) =
      let (o, rest, ho, hr, same) = gather_first metadata d entries out h in
      gather_done entries rest e hr m

  scheduled_permutes :
      (schedule : List DirEntry → List DirEntry) (l : List DirEntry)
      → ((l : List DirEntry) → Permᴰ (schedule l) l)
      → Permᴰ (scheduled metadata schedule l) l
  scheduled_permutes schedule l fair = elim (Bool-cases (ltb parallel_threshold (length l))) [
    | inl h ↦ rw h (fair l)
    | inr h ↦ rw h (Permᴰ.refl l)
  ]

  module _ (predicate : WalkPredicate) (items : List WalkItem) where
    -- The record of an entry that walkdir yielded and the predicate keeps.
    abbrev pub IsListed : FileEntry → Type 0
    IsListed x = (e : DirEntry) × Memᴰ (ok e) items × IsKept predicate e × Describes metadata e x

    -- Every such entry of a file has its record.
    abbrev pub IsComplete : List FileEntry → Type 0
    IsComplete out =
        (e : DirEntry) (rel : Text)
        → Memᴰ (ok e) items
        → e.relative ≡ some rel
        → predicate rel false ≡ true
        → is_dir e.file_type ≡ false
        → rel ≢ []
        → (x : FileEntry) × Memᴰ x out × Describes metadata e x

    abbrev pub Lists : List FileEntry → Type 0
    Lists out =
        AllRead items
        × IsSorted (λ (e : FileEntry). e.path) out
        × ((x : FileEntry) → Memᴰ x out → IsListed x)
        × IsComplete out

    gathered-Lists :
        (root : FilePath) (entries order : List DirEntry) (r : List FileEntry)
        → enumerate root predicate items ≡ ok entries
        → Permᴰ order entries
        → gather metadata order ≡ ok r
        → Lists (sort_by (λ e. e.path) r)
    gathered-Lists root entries order r he p hr =
        let sorts = sort_by_permutes (λ (e : FileEntry). e.path) r in
        (
          enumerate-AllRead root predicate items entries he,
          sort_by-IsSorted (λ (e : FileEntry). e.path) r,
          λ x m.
              let (e, at, made) = gather_source metadata order r x hr (mem-Perm sorts m) in
              let (yielded, keeps) =
                enumerate-IsKept root predicate items entries e he (mem-Perm p at) in
              (e, yielded, keeps, record_entry-Describes metadata e x made),
          λ e rel m h keeps file below.
              let at =
                enumerate_all root predicate items entries e he m
                  (rel, h, ap (predicate rel) file ∙ keeps) in
              let at' = mem-Perm (Permᴰ.symm p) at in
              let (o, done) = gather_done order r e hr at' in
              let (x, is_x) = recorded_some e rel o file h below done in
              let made = done ∙ ap ok is_x in
              (
                x,
                mem-Perm (Permᴰ.symm sorts) (gather_all metadata order r e x hr at' made),
                record_entry-Describes metadata e x made,
              ),
        )

    walk_tree-Lists :
        (schedule : List DirEntry → List DirEntry) (root : FilePath) (out : List FileEntry)
        → ((l : List DirEntry) → Permᴰ (schedule l) l)
        → walk_tree metadata schedule root predicate items ≡ ok out
        → Lists out
    unfolding walk_tree
    walk_tree-Lists schedule root out fair h =
        let (entries, he, h1) =
          >>=-eq-ok (enumerate root predicate items)
            (λ entries. gather metadata (scheduled metadata schedule entries) >>= λ r.
              ok (sort_by (λ (e : FileEntry). e.path) r))
            h in
        let (r, hr, same) =
          >>=-eq-ok (gather metadata (scheduled metadata schedule entries))
            (λ r. ok (sort_by (λ (e : FileEntry). e.path) r)) h1 in
        subst Lists (ok-injective same) (
          gathered-Lists root entries (scheduled metadata schedule entries) r he
            (scheduled_permutes schedule entries fair) hr)

    guard_passed :
        (b : Bool) (x : Result (List FileEntry) SyncError) (e : SyncError) (out : List FileEntry)
        → (if b then x else err e) ≡ ok out
        → (b ≡ true) × (x ≡ ok out)
    guard_passed true x e out h = (refl, h)
    guard_passed false x e out h = cc

    -- A walk that succeeds, whatever the order in which the threads take the entries once each, was
    -- of a directory and met no error of walkdir; its list is sorted by path, has only records of
    -- entries that walkdir yielded and the predicate keeps, each made of that entry's metadata, and
    -- has one of every such entry that is no directory and lies below the root.
    pub walk_dir_with-Lists :
        (schedule : List DirEntry → List DirEntry) (root : FilePath) (out : List FileEntry)
        → ((l : List DirEntry) → Permᴰ (schedule l) l)
        → walk_dir_with metadata schedule root predicate items ≡ ok out
        → ((meta : Metadata) × (metadata root ≡ ok meta) × (meta.is_directory ≡ true)) × Lists out
    unfolding walk_dir_with
    walk_dir_with-Lists schedule root out fair h =
        let tree = walk_tree metadata schedule root predicate items in
        let (meta, hm, h1) =
          >>=-eq-ok (map_err (walk root) (metadata root))
            (λ meta. if meta.is_directory then tree else err (not_a_directory root)) h in
        let (dir, h2) = guard_passed meta.is_directory tree (not_a_directory root) out h1 in
        (
          (meta, map_err-ok (walk root) (metadata root) meta hm, dir),
          walk_tree-Lists schedule root out fair h2,
        )
