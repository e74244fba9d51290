-- ===== src/Sync/Parallel.antt =====
-- src/sync.rs, walk_dir_with: the parallel walk and the sequential one.
use snap_pipe.Prelude.{
  ◌≡◌, ◌↔◌, refl, sym, ap, ◌∙◌, subst, Bool, true, false, Option, none, some, List, ◌∷◌, length,
  ltb, if◌then◌else◌, Bool-cases, inl, inr,
}
use mathlib.Core.List.{Permᴰ}
use mathlib.Core.List.Permᴰ
use snap_pipe.Prelude.Results.{Result, ok, err, map_err, ◌>>=◌, >>=-eq-ok, ok-injective}
use snap_pipe.Prelude.Text.{Text}
use snap_pipe.Files.{FilePath}
use snap_pipe.Sync.{FileEntry, sort_by}
use snap_pipe.Sync.Sort.{UniquePaths}
use snap_pipe.Sync.Order.{sort_by-Perm, sort_by_permutes, UniquePaths-Perm}
use snap_pipe.Sync.Walk.{
  SyncError, walk, not_a_directory, WalkPredicate, Metadata, DirEntry, WalkItem, enumerate,
  record_entry, push, gather, scheduled, walk_tree, walk_dir_with, parallel_threshold,
}

abbrev key : FileEntry → Text
key e = e.path

module _ (metadata : FilePath → Result Metadata Text) where
  -- What a successful gathering has done with the first entry, and its converse.
  pub gather_first :
      (e : DirEntry) (entries : List DirEntry) (out : List FileEntry)
      → gather metadata (e ∷ entries) ≡ ok out
      → (o : Option FileEntry) × (rest : List FileEntry) × (record_entry metadata e ≡ ok o)
        × (gather metadata entries ≡ ok rest)
        × (push metadata o rest ≡ out)
  unfolding gather
  gather_first e entries out h =
      let (o, ho, h1) =
        >>=-eq-ok (record_entry metadata e)
          (λ o. gather metadata entries >>= λ rest. ok (push metadata o rest)) h in
      let (rest, hr, h2) =
        >>=-eq-ok (gather metadata entries) (λ rest. ok (push metadata o rest)) h1 in
      (o, rest, ho, hr, ok-injective h2)

  gather-push :
      (e : DirEntry) (entries : List DirEntry) (o : Option FileEntry) (rest : List FileEntry)
      → record_entry metadata e ≡ ok o
      → gather metadata entries ≡ ok rest
      → gather metadata (e ∷ entries) ≡ ok (push metadata o rest)
  unfolding gather
  gather-push e entries o rest h k = rw (h, k)

  push-Perm :
      (o : Option FileEntry) {l l' : List FileEntry}
      → Permᴰ l l'
      → Permᴰ (push metadata o l) (push metadata o l')
  push-Perm none p = p
  push-Perm (some e) p = Permᴰ.cons refl p

  push_swap :
      (o o' : Option FileEntry) (l : List FileEntry)
      → Permᴰ (push metadata o (push metadata o' l)) (push metadata o' (push metadata o l))
  push_swap none o' l = Permᴰ.refl _
  push_swap (some e) none l = Permᴰ.refl _
  push_swap (some e) (some e') l = Permᴰ.swap refl refl

  abbrev Gathers : List DirEntry → List FileEntry → Type 0
  Gathers entries out =
      (out' : List FileEntry) × (gather metadata entries ≡ ok out') × Permᴰ out out'

  gather-Perm :
      {l l' : List DirEntry}
      → Permᴰ l l'
      → (out : List FileEntry) → gather metadata l ≡ ok out
      → Gathers l' out
  gather-Perm Permᴰ.nil out h = (out, h, Permᴰ.refl out)
  gather-Perm (Permᴰ.cons {a} {b} {l₁} {l₂} e p) out h =
      let (o, rest, ho, hr, same) = gather_first a l₁ out h in
      let (rest', hr', q) = gather-Perm p rest hr in
      subst (Gathers (b ∷ l₂)) same (
        push metadata o rest',
        gather-push b l₂ o rest' (subst (λ x. record_entry metadata x ≡ ok o) e ho) hr',
        push-Perm o q,
      )
  gather-Perm (Permᴰ.swap {a} {b} {a'} {b'} {l} e f) out h =
      let (o, rest, ho, hr, same) = gather_first a (b ∷ l) out h in
      let (o', rest', ho', hr', same') = gather_first b l rest hr in
      subst (Gathers (a' ∷ b' ∷ l)) (ap (push metadata o) same' ∙ same) (
        push metadata o' (push metadata o rest'),
        gather-push a' (b' ∷ l) o' (push metadata o rest')
            (subst (λ x. record_entry metadata x ≡ ok o') f ho')
            (gather-push b' l o rest' (subst (λ x. record_entry metadata x ≡ ok o) e ho) hr'),
        push_swap o o' rest',
      )
  gather-Perm (Permᴰ.trans p q) out h =
      let (out', h', r) = gather-Perm p out h in
      let (out'', h'', r') = gather-Perm q out' h' in (out'', h'', Permᴰ.trans r r')

  -- Two schedules that take the same entries.
  abbrev Agree : (List DirEntry → List DirEntry) → (List DirEntry → List DirEntry) → Type 0
  Agree s s' = (l : List DirEntry) → Permᴰ (s l) (s' l)

  scheduled-Perm :
      (s s' : List DirEntry → List DirEntry) (l : List DirEntry)
      → Agree s s'
      → Permᴰ (scheduled metadata s l) (scheduled metadata s' l)
  scheduled-Perm s s' l agree = elim (Bool-cases (ltb parallel_threshold (length l))) [
    | inl h ↦ rw h (agree l)
    | inr h ↦ rw h (Permᴰ.refl l)
  ]

  gather-sorted :
      {l l' : List DirEntry} (out : List FileEntry)
      → Permᴰ l l'
      → UniquePaths key out
      → ◌>>=◌ (gather metadata l) (λ r. ok (sort_by key r)) ≡ ok out
      → ◌>>=◌ (gather metadata l') (λ r. ok (sort_by key r)) ≡ ok out
  gather-sorted {l} {l'} out p u h =
      let (r, hr, same) = >>=-eq-ok (gather metadata l) (λ r. ok (sort_by key r)) h in
      let (r', hr', q) = gather-Perm p r hr in
      let unique =
        UniquePaths-Perm key (sort_by_permutes key r)
          (subst (UniquePaths key) (sym (ok-injective same)) u) in
      ap (λ g. ◌>>=◌ g (λ x. ok (sort_by key x))) hr'
      ∙ ap ok (sym (sort_by-Perm key q unique))
      ∙ same

  walk_tree-Agree :
      (s s' : List DirEntry → List DirEntry) (root : FilePath) (predicate : WalkPredicate)
      (items : List WalkItem) (out : List FileEntry)
      → Agree s s'
      → UniquePaths key out
      → walk_tree metadata s root predicate items ≡ ok out
      → walk_tree metadata s' root predicate items ≡ ok out
  unfolding walk_tree
  walk_tree-Agree s s' root predicate items out agree u h =
      let finish : (List DirEntry → List DirEntry)
          → List DirEntry
          → Result (List FileEntry) SyncError =
        λ t entries. gather metadata (scheduled metadata t entries) >>= λ r. ok (sort_by key r) in
      let (entries, he, h1) = >>=-eq-ok (enumerate root predicate items) (finish s) h in
      ap (λ r. ◌>>=◌ r (finish s')) he ∙ gather-sorted out (scheduled-Perm s s' entries agree) u h1

  guarded :
      (b : Bool) (x y : Result (List FileEntry) SyncError) (e : SyncError) (out : List FileEntry)
      → (x ≡ ok out → y ≡ ok out)
      → (if b then x else err e) ≡ ok out
      → (if b then y else err e) ≡ ok out
  guarded true x y e out f h = f h
  guarded false x y e out f h = cc

  rooted :
      (r : Result Metadata SyncError) (x y : Result (List FileEntry) SyncError) (e : SyncError)
      (out : List FileEntry)
      → (x ≡ ok out → y ≡ ok out)
      → ◌>>=◌ r (λ meta. if meta.is_directory then x else err e) ≡ ok out
      → ◌>>=◌ r (λ meta. if meta.is_directory then y else err e) ≡ ok out
  rooted (ok meta) x y e out f h = guarded meta.is_directory x y e out f h
  rooted (err failure) x y e out f h = cc

  walk_dir_with-Agree :
      (s s' : List DirEntry → List DirEntry) (root : FilePath) (predicate : WalkPredicate)
      (items : List WalkItem) (out : List FileEntry)
      → Agree s s'
      → UniquePaths key out
      → walk_dir_with metadata s root predicate items ≡ ok out
      → walk_dir_with metadata s' root predicate items ≡ ok out
  unfolding walk_dir_with
  walk_dir_with-Agree s s' root predicate items out agree u h =
      rooted (map_err (walk root) (metadata root)) (walk_tree metadata s root predicate items)
        (walk_tree metadata s' root predicate items) (not_a_directory root) out
        (walk_tree-Agree s s' root predicate items out agree u) h

  -- A walk that runs in parallel gives a list without repeated paths exactly if the sequential walk
  -- gives the same list, whatever the order in which the threads take the entries, if that takes
  -- each entry once.
  pub walk_dir_with_schedules :
      (schedule : List DirEntry → List DirEntry) (root : FilePath) (predicate : WalkPredicate)
      (items : List WalkItem) (out : List FileEntry)
      → ((l : List DirEntry) → Permᴰ (schedule l) l)
      → UniquePaths (λ (e : FileEntry). e.path) out
      → (walk_dir_with metadata (λ l. l) root predicate items ≡ ok out)
        ↔ (walk_dir_with metadata schedule root predicate items ≡ ok out)
  walk_dir_with_schedules schedule root predicate items out fair u = (
    walk_dir_with-Agree (λ l. l) schedule root predicate items out (λ l. Permᴰ.symm (fair l)) u,
    walk_dir_with-Agree schedule (λ l. l) root predicate items out fair u,
  )
