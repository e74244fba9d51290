-- ===== src/Sync/Listing.antt =====
-- src/sync.rs, walk_dir_with: what the first phase keeps of what walkdir yields.
use snap_pipe.Prelude.{
  ◌≡◌, refl, sym, ap, subst, Bool, true, false, Option, none, some, List, [], ◌∷◌, All, ◌⊎◌, inl,
  inr, if◌then◌else◌,
}
use mathlib.Core.List.{Memᴰ}
use mathlib.Core.List.Memᴰ
use snap_pipe.Prelude.Results.{ok, err, >>=-eq-ok, ok-injective}
use snap_pipe.Prelude.Text.{Text}
use snap_pipe.Files.{FilePath}
use snap_pipe.Sync.Walk.{WalkPredicate, DirEntry, WalkItem, is_dir, kept, enumerate}

-- An entry that the predicate is asked about and keeps.
abbrev pub IsKept : WalkPredicate → DirEntry → Type 0
IsKept predicate e =
    (rel : Text) × (e.relative ≡ some rel) × (predicate rel (is_dir e.file_type) ≡ true)

IsKept-if :
    (predicate : WalkPredicate) (d e : DirEntry) (rest : List DirEntry) (rel : Text) (b : Bool)
    → d.relative ≡ some rel
    → predicate rel (is_dir d.file_type) ≡ b
    → Memᴰ e (if b then d ∷ rest else rest)
    → ((e ≡ d) × IsKept predicate d) ⊎ Memᴰ e rest
IsKept-if predicate d e rest rel true h k (Memᴰ.head same) = inl (same, (rel, h, k))
IsKept-if predicate d e rest rel true h k (Memᴰ.tail m) = inr m
IsKept-if predicate d e rest rel false h k m = inr m

IsKept-first_or_rest :
    (predicate : WalkPredicate) (d e : DirEntry) (rest : List DirEntry) (o : Option Text)
    → d.relative ≡ o
    → Memᴰ e (elim o as (λ _. List DirEntry) [
      | none ↦ rest
      | some rel ↦ if predicate rel (is_dir d.file_type) then d ∷ rest else rest
    ])
    → ((e ≡ d) × IsKept predicate d) ⊎ Memᴰ e rest
IsKept-first_or_rest predicate d e rest none h m = inr m
IsKept-first_or_rest predicate d e rest (some rel) h m =
    IsKept-if predicate d e rest rel (predicate rel (is_dir d.file_type)) h refl m

kept_first :
    (predicate : WalkPredicate) (d : DirEntry) (rest : List DirEntry)
    → IsKept predicate d
    → Memᴰ d (kept predicate d rest)
kept_first predicate d rest (rel, h, k) = rw (h, k) (Memᴰ.head refl)

later_if :
    (d e : DirEntry) (rest : List DirEntry) (b : Bool)
    → Memᴰ e rest
    → Memᴰ e (if b then d ∷ rest else rest)
later_if d e rest true m = Memᴰ.tail m
later_if d e rest false m = m

kept_later :
    (predicate : WalkPredicate) (d e : DirEntry) (rest : List DirEntry)
    → Memᴰ e rest
    → Memᴰ e (kept predicate d rest)
kept_later predicate d e rest m =
    elim d.relative
      as (λ o. Memᴰ e (elim o as (λ _. List DirEntry) [
        | none ↦ rest
        | some rel ↦ if predicate rel (is_dir d.file_type) then d ∷ rest else rest
      ])) [ none ↦ m | some rel ↦ later_if d e rest (predicate rel (is_dir d.file_type)) m ]

-- What the iterator yielded had no error.
abbrev pub AllRead : List WalkItem → Type 0
AllRead items = All (λ item. (e : DirEntry) × (item ≡ ok e)) items

module _ (root : FilePath) (predicate : WalkPredicate) where
  enumerate_first :
      (d : DirEntry) (items : List WalkItem) (entries : List DirEntry)
      → enumerate root predicate (ok d ∷ items) ≡ ok entries
      → (rest : List DirEntry) × (enumerate root predicate items ≡ ok rest)
        × (kept predicate d rest ≡ entries)
  unfolding enumerate
  enumerate_first d items entries h =
      let (rest, hr, h1) =
        >>=-eq-ok (enumerate root predicate items) (λ rest. ok (kept predicate d rest)) h in
      (rest, hr, ok-injective h1)

  pub enumerate-AllRead :
      (items : List WalkItem) (entries : List DirEntry)
      → enumerate root predicate items ≡ ok entries
      → AllRead items
  unfolding enumerate
  enumerate-AllRead [] entries h = tt
  enumerate-AllRead (err e ∷ items) entries h = cc
  enumerate-AllRead (ok d ∷ items) entries h =
      let (rest, hr, same) = enumerate_first d items entries h in
      ((d, refl), enumerate-AllRead items rest hr)

  pub enumerate-IsKept :
      (items : List WalkItem) (entries : List DirEntry) (e : DirEntry)
      → enumerate root predicate items ≡ ok entries
      → Memᴰ e entries
      → Memᴰ (ok e) items × IsKept predicate e
  unfolding enumerate
  enumerate-IsKept [] entries e h m =
      absurd (Memᴰ.not-nil (subst (Memᴰ e) (sym (ok-injective h)) m))
  enumerate-IsKept (err failure ∷ items) entries e h m = cc
  enumerate-IsKept (ok d ∷ items) entries e h m =
      let (rest, hr, same) = enumerate_first d items entries h in
      elim (IsKept-first_or_rest predicate d e rest d.relative refl (subst (Memᴰ e) (sym same) m)) [
        | inl (here, k) ↦ (Memᴰ.head (ap ok here), subst (IsKept predicate) (sym here) k)
        | inr later ↦ let (at, k) = enumerate-IsKept items rest e hr later in (Memᴰ.tail at, k)
      ]

  pub enumerate_all :
      (items : List WalkItem) (entries : List DirEntry) (e : DirEntry)
      → enumerate root predicate items ≡ ok entries
      → Memᴰ (ok e) items
      → IsKept predicate e
      → Memᴰ e entries
  unfolding enumerate
  enumerate_all [] entries e h m k = absurd (Memᴰ.not-nil m)
  enumerate_all (err failure ∷ items) entries e h m k = cc
  enumerate_all (ok d ∷ items) entries e h (Memᴰ.head same) k =
      let (rest, hr, all) = enumerate_first d items entries h in
      let here : e ≡ d = ok-injective same in
      subst (Memᴰ e) all (
        subst (λ x. Memᴰ x (kept predicate d rest)) (sym here)
          (kept_first predicate d rest (subst (IsKept predicate) here k)))
  enumerate_all (ok d ∷ items) entries e h (Memᴰ.tail m) k =
      let (rest, hr, all) = enumerate_first d items entries h in
      subst (Memᴰ e) all (kept_later predicate d e rest (enumerate_all items rest e hr m k))
