-- ===== src/Sync/Recorded.antt =====
-- src/sync.rs, walk_dir_with: what the second phase makes of the entries of the first.
use snap_pipe.Prelude.{
  ◌≡◌, ◌≢◌, refl, sym, ap, ◌∙◌, subst, Bool, true, false, Option, none, some, List, [], ◌∷◌, ◌⊎◌,
  inl, inr, if◌then◌else◌,
}
use mathlib.Core.List.{Memᴰ}
use mathlib.Core.List.Memᴰ
use snap_pipe.Prelude.Results.{Result, ok, err, map_err, map_err-ok, >>=-eq-ok, ok-injective}
use snap_pipe.Prelude.Text.{Text}
use snap_pipe.Files.{FilePath}
use snap_pipe.Sync.{FileEntry}
use snap_pipe.Sync.Walk.{
  SyncError, walk, path_escape, Metadata, DirEntry, is_dir, build_entry, described, record_entry,
  push, gather,
}
use snap_pipe.Sync.Parallel.{gather_first}

module _ (metadata : FilePath → Result Metadata Text) where
  -- What the second phase makes of an entry that it records.
  abbrev pub Describes : DirEntry → FileEntry → Type 0
  Describes e x =
      (rel : Text) × (meta : Metadata) × (e.relative ≡ some rel)
      × (rel ≢ [])
      × (is_dir e.file_type ≡ false)
      × (metadata e.full_path ≡ ok meta)
      × (x ≡ build_entry rel meta)

  described-ok :
      (path : FilePath) (rel : Text) (x : FileEntry)
      → described metadata path rel ≡ ok (some x)
      → (meta : Metadata) × (rel ≢ []) × (metadata path ≡ ok meta) × (x ≡ build_entry rel meta)
  unfolding described
  described-ok path [] x h = cc
  described-ok path (c ∷ rel) x h =
      let (meta, hm, h1) =
        >>=-eq-ok (map_err (walk path) (metadata path))
          (λ meta. ok (some (build_entry (c ∷ rel) meta))) h in
      (meta, λ e. cc, map_err-ok (walk path) (metadata path) meta hm, cc)

  record_entry_cases :
      (e : DirEntry) (x : FileEntry) (b : Bool) (o : Option Text)
      → is_dir e.file_type ≡ b
      → e.relative ≡ o
      → (if b then ok none else elim o as (λ _. Result (Option FileEntry) SyncError) [
        | none ↦ err (path_escape e.full_path)
        | some rel ↦ described metadata e.full_path rel
      ])
        ≡ ok (some x)
      → Describes e x
  record_entry_cases e x true o hb ho h = cc
  record_entry_cases e x false none hb ho h = cc
  record_entry_cases e x false (some rel) hb ho h =
      let (meta, below, hm, same) = described-ok e.full_path rel x h in
      (rel, meta, ho, below, hb, hm, same)

  pub record_entry-Describes :
      (e : DirEntry) (x : FileEntry) → record_entry metadata e ≡ ok (some x) → Describes e x
  unfolding record_entry
  record_entry-Describes e x h = record_entry_cases e x (is_dir e.file_type) e.relative refl refl h

  described_below :
      (path : FilePath) (rel : Text) (meta : Metadata)
      → rel ≢ []
      → metadata path ≡ ok meta
      → described metadata path rel ≡ ok (some (build_entry rel meta))
  unfolding described
  described_below path [] meta below h = absurd (below refl)
  described_below path (c ∷ rel) meta below h = rw h refl

  pub Describes-record_entry :
      (e : DirEntry) (x : FileEntry) → Describes e x → record_entry metadata e ≡ ok (some x)
  unfolding record_entry
  Describes-record_entry e x (rel, meta, ho, below, hb, hm, same) =
      rw (hb, ho, same) (described_below e.full_path rel meta below hm)

  pushed :
      (o : Option FileEntry) (rest : List FileEntry) (x : FileEntry)
      → Memᴰ x (push metadata o rest)
      → (o ≡ some x) ⊎ Memᴰ x rest
  pushed none rest x m = inr m
  pushed (some y) rest x (Memᴰ.head same) = inl (ap some (sym same))
  pushed (some y) rest x (Memᴰ.tail m) = inr m

  push_later :
      (o : Option FileEntry) (rest : List FileEntry) (x : FileEntry)
      → Memᴰ x rest
      → Memᴰ x (push metadata o rest)
  push_later none rest x m = m
  push_later (some y) rest x m = Memᴰ.tail m

  pub gather_source :
      (entries : List DirEntry) (out : List FileEntry) (x : FileEntry)
      → gather metadata entries ≡ ok out
      → Memᴰ x out
      → (e : DirEntry) × Memᴰ e entries × (record_entry metadata e ≡ ok (some x))
  unfolding gather
  gather_source [] out x h m = absurd (Memᴰ.not-nil (subst (Memᴰ x) (sym (ok-injective h)) m))
  gather_source (d ∷ entries) out x h m =
      let (o, rest, ho, hr, same) = gather_first metadata d entries out h in
      elim (pushed o rest x (subst (Memᴰ x) (sym same) m)) [
        | inl here ↦ (d, Memᴰ.head refl, ho ∙ ap ok here)
        | inr later ↦
            let (e, at, he) = gather_source entries rest x hr later in (e, Memᴰ.tail at, he)
      ]

  pub gather_all :
      (entries : List DirEntry) (out : List FileEntry) (e : DirEntry) (x : FileEntry)
      → gather metadata entries ≡ ok out
      → Memᴰ e entries
      → record_entry metadata e ≡ ok (some x)
      → Memᴰ x out
  gather_all [] out e x h m k = absurd (Memᴰ.not-nil m)
  gather_all (d ∷ entries) out e x h (Memᴰ.head here) k =
      let (o, rest, ho, hr, same) = gather_first metadata d entries out h in
      let is_x : o ≡ some x = ok-injective (sym ho ∙ ap (record_entry metadata) (sym here) ∙ k) in
      subst (Memᴰ x) same (subst (λ o. Memᴰ x (push metadata o rest)) (sym is_x) (Memᴰ.head refl))
  gather_all (d ∷ entries) out e x h (Memᴰ.tail m) k =
      let (o, rest, ho, hr, same) = gather_first metadata d entries out h in
      subst (Memᴰ x) same (push_later o rest x (gather_all entries rest e x hr m k))
