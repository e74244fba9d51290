-- ===== src/Sync/Diff.antt =====
-- src/sync.rs, diff_entries: each path by what the two lists say of it.
use snap_pipe.Prelude.{
  ◌≡◌, refl, ap, ◌∙◌, Option, none, some, Option-cases, inl, inr, Bool-cases, List, [], ◌∷◌,
  if◌then◌else◌, arith,
}
use mathlib.Core.Path.{ap₂}
use snap_pipe.Prelude.Text.{Text, text_eq, text_eq_iff}
use snap_pipe.Prelude.Map.{
  HashMap, lookup, contains_key, insert, UniqueKeys, insert-UniqueKeys, lookup-insert,
}
use snap_pipe.Sync.{
  FileEntry, signature_changed, collected, compare_entries, removed_entries, diff_entries,
}
use snap_pipe.Sync.Sort.{find, UniquePaths, find-sort_by}

-- The last entry of a path in a list.
abbrev pub last_entry : Text → List FileEntry → Option FileEntry → Option FileEntry
last_entry p [] o = o
last_entry p (e ∷ es) o = last_entry p es (if text_eq e.path p then some e else o)

lookup-collected :
    (p : Text) (es : List FileEntry) (m : HashMap FileEntry)
    → lookup p (collected es m) ≡ last_entry p es (lookup p m)
unfolding collected
lookup-collected p [] m = refl
lookup-collected p (e ∷ es) m =
    lookup-collected p es (insert e.path e m) ∙ ap (last_entry p es) (lookup-insert e.path p e m)

collected-UniqueKeys :
    (es : List FileEntry) (m : HashMap FileEntry) → UniqueKeys m → UniqueKeys (collected es m)
unfolding collected
collected-UniqueKeys [] m u = u
collected-UniqueKeys (e ∷ es) m u =
    collected-UniqueKeys es (insert e.path e m) (insert-UniqueKeys e.path e m u)

-- Every entry stands under its path.
abbrev Keyed : HashMap FileEntry → Type 0
Keyed [] = Unit
Keyed ((k, e) ∷ m) = (e.path ≡ k) × Keyed m

insert-Keyed : (e : FileEntry) (m : HashMap FileEntry) → Keyed m → Keyed (insert e.path e m)
unfolding insert
insert-Keyed e [] h = (refl, tt)
insert-Keyed e ((k, d) ∷ m) (h, hs) = ground (arith, text_eq_iff k e.path, insert-Keyed e m hs)

collected-Keyed : (es : List FileEntry) (m : HashMap FileEntry) → Keyed m → Keyed (collected es m)
unfolding collected
collected-Keyed [] m h = h
collected-Keyed (e ∷ es) m h = collected-Keyed es (insert e.path e m) (insert-Keyed e m h)

-- What one path is in the difference of `old` and `new`.
abbrev pub added_as : Option FileEntry → Option FileEntry → Option FileEntry
added_as none new = new
added_as (some old) new = none

abbrev pub modified_as : Option FileEntry → Option FileEntry → Option (FileEntry × FileEntry)
modified_as (some old) (some new) = if signature_changed old new then some (old, new) else none
modified_as _ _ = none

find-added :
    (p : Text) (s t : HashMap FileEntry)
    → Keyed t
    → find (λ (e : FileEntry). e.path) p (compare_entries s t).0
      ≡ added_as (lookup p s) (lookup p t)
unfolding find lookup compare_entries
find-added p s [] h =
    elim (lookup p s) as (λ o. ◌≡◌ {A = Option FileEntry} none (added_as o none)) [
      | none ↦ refl
      | some old ↦ refl
    ]
find-added p s ((k, e) ∷ t) (h, hs) = ground (arith, find-added p s t hs, text_eq_iff k p)

find-removed :
    (p : Text) (t s : HashMap FileEntry)
    → Keyed s
    → find (λ (e : FileEntry). e.path) p (removed_entries t s) ≡ added_as (lookup p t) (lookup p s)
unfolding find lookup removed_entries
find-removed p t [] h =
    elim (lookup p t) as (λ o. ◌≡◌ {A = Option FileEntry} none (added_as o none)) [
      | none ↦ refl
      | some old ↦ refl
    ]
find-removed p t ((k, e) ∷ s) (h, hs) = ground (arith, find-removed p t s hs, text_eq_iff k p)

lookup-Keyed :
    (k : Text) (s : HashMap FileEntry) (e : FileEntry) → Keyed s → lookup k s ≡ some e → e.path ≡ k
unfolding lookup
lookup-Keyed k [] e h at = cc
lookup-Keyed k ((j, d) ∷ s) e (h, hs) at = ground (arith, text_eq_iff j k, lookup-Keyed k s e hs)

find-modified :
    (p : Text) (s t : HashMap FileEntry)
    → Keyed s
    → UniqueKeys t
    → find (λ (d : FileEntry × FileEntry). d.0.path) p (compare_entries s t).1
      ≡ modified_as (lookup p s) (lookup p t)
unfolding find lookup compare_entries
find-modified p s [] h u =
    elim (lookup p s) as (λ o. ◌≡◌ {A = Option (FileEntry × FileEntry)} none (modified_as o none)) [
      | none ↦ refl
      | some old ↦ refl
    ]
find-modified p s ((k, e) ∷ t) h (new, u) = elim (Option-cases (lookup k s)) [
  | inl o ↦ ground (arith, find-modified p s t h u, text_eq_iff k p)
  | inr (old, o) ↦
      ground (arith, find-modified p s t h u, text_eq_iff k p, lookup-Keyed k s old h o)
]

absent : (o : Option FileEntry) → added_as o none ≡ none
absent none = refl
absent (some old) = refl

unmodified : (o : Option FileEntry) → modified_as o none ≡ none
unmodified none = refl
unmodified (some old) = refl

added-UniquePaths :
    (s t : HashMap FileEntry)
    → Keyed t
    → UniqueKeys t
    → UniquePaths (λ (e : FileEntry). e.path) (compare_entries s t).0
unfolding compare_entries
added-UniquePaths s [] h u = tt
added-UniquePaths s ((k, e) ∷ t) (h, hs) (new, u) = elim (Option-cases (lookup k s)) [
  | inl o ↦
      rw (compare_entries, o)
        (
          find-added e.path s t hs
              ∙ ap (λ p. added_as (lookup p s) (lookup p t)) h
              ∙ ap (added_as (lookup k s)) new
              ∙ absent (lookup k s),
          added-UniquePaths s t hs u,
        )
  | inr (old, o) ↦ rw (compare_entries, o) (added-UniquePaths s t hs u)
]

removed-UniquePaths :
    (t s : HashMap FileEntry)
    → Keyed s
    → UniqueKeys s
    → UniquePaths (λ (e : FileEntry). e.path) (removed_entries t s)
unfolding removed_entries
removed-UniquePaths t [] h u = tt
removed-UniquePaths t ((k, e) ∷ s) (h, hs) (new, u) = elim (Bool-cases (contains_key k t)) [
  | inl o ↦ rw (removed_entries, o) (removed-UniquePaths t s hs u)
  | inr o ↦
      rw (removed_entries, o)
        (
          find-removed e.path t s hs
              ∙ ap (λ p. added_as (lookup p t) (lookup p s)) h
              ∙ ap (added_as (lookup k t)) new
              ∙ absent (lookup k t),
          removed-UniquePaths t s hs u,
        )
]

modified-UniquePaths :
    (s t : HashMap FileEntry)
    → Keyed s
    → UniqueKeys t
    → UniquePaths (λ (d : FileEntry × FileEntry). d.0.path) (compare_entries s t).1
unfolding compare_entries
modified-UniquePaths s [] h u = tt
modified-UniquePaths s ((k, e) ∷ t) h (new, u) = elim (Option-cases (lookup k s)) [
  | inl o ↦ rw (compare_entries, o) (modified-UniquePaths s t h u)
  | inr (old, o) ↦ elim (Bool-cases (signature_changed old e)) [
    | inr same ↦ rw (compare_entries, o, same) (modified-UniquePaths s t h u)
    | inl changed ↦
        rw (compare_entries, o, changed)
          (
            find-modified old.path s t h u
                ∙ ap (λ p. modified_as (lookup p s) (lookup p t)) (lookup-Keyed k s old h o)
                ∙ ap (modified_as (lookup k s)) new
                ∙ unmodified (lookup k s),
            modified-UniquePaths s t h u,
          )
  ]
]

lookup-nothing : (p : Text) → ◌≡◌ {A = Option FileEntry} (lookup p []) none
unfolding lookup
lookup-nothing p = refl

-- What the three lists of a difference hold of a path is decided by the last entry that each of the
-- two given lists has of it: the target's one is added if the source has none, the source's one is
-- removed if the target has none, and both are modified if size, time or mode differ.
pub diff_entries-find :
    (source target : List FileEntry) (p : Text)
    → let (added, removed, modified) = diff_entries source target in
      (find (λ (e : FileEntry). e.path) p added
        ≡ added_as (last_entry p source none) (last_entry p target none))
      × (find (λ (e : FileEntry). e.path) p removed
          ≡ added_as (last_entry p target none) (last_entry p source none))
      × (find (λ (d : FileEntry × FileEntry). d.0.path) p modified
          ≡ modified_as (last_entry p source none) (last_entry p target none))
unfolding diff_entries
diff_entries-find source target p =
    let s = collected source [] in
    let t = collected target [] in
    let us = collected-UniqueKeys source [] tt in
    let ut = collected-UniqueKeys target [] tt in
    let ks = collected-Keyed source [] tt in
    let kt = collected-Keyed target [] tt in
    let at_s = lookup-collected p source [] ∙ ap (last_entry p source) (lookup-nothing p) in
    let at_t = lookup-collected p target [] ∙ ap (last_entry p target) (lookup-nothing p) in
    (
      find-sort_by (λ (e : FileEntry). e.path) p (compare_entries s t).0
            (added-UniquePaths s t kt ut)
          ∙ find-added p s t kt
          ∙ ap₂ added_as at_s at_t,
      find-sort_by (λ (e : FileEntry). e.path) p (removed_entries t s)
            (removed-UniquePaths t s ks us)
          ∙ find-removed p t s ks
          ∙ ap₂ added_as at_t at_s,
      find-sort_by (λ (d : FileEntry × FileEntry). d.0.path) p (compare_entries s t).1
            (modified-UniquePaths s t ks ut)
          ∙ find-modified p s t ks ut
          ∙ ap₂ modified_as at_s at_t,
    )
