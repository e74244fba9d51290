-- ===== src/Sync/Sorted.antt =====
-- src/sync.rs, sort_by: the result is in the order of the paths, and has the same elements.
use snap_pipe.Prelude.{◌≡◌, ◌∙◌, true, List, [], ◌∷◌, All, Bool-cases, inl, inr}
use mathlib.Core.List.{Permᴰ, Memᴰ}
use snap_pipe.Prelude.Text.{Text}
use snap_pipe.Sync.{le_path, insert_sorted, sort_by}
use snap_pipe.Sync.Order.{le_path-total, le_path_trans}

module _ {A : Type 0} where
  pub mem-Perm : {x : A} {l l' : List A} → Permᴰ l l' → Memᴰ x l → Memᴰ x l'
  mem-Perm Permᴰ.nil m = m
  mem-Perm (Permᴰ.cons e p) (Memᴰ.head h) = Memᴰ.head (h ∙ e)
  mem-Perm (Permᴰ.cons e p) (Memᴰ.tail m) = Memᴰ.tail (mem-Perm p m)
  mem-Perm (Permᴰ.swap e f) (Memᴰ.head h) = Memᴰ.tail (Memᴰ.head (h ∙ e))
  mem-Perm (Permᴰ.swap e f) (Memᴰ.tail (Memᴰ.head h)) = Memᴰ.head (h ∙ f)
  mem-Perm (Permᴰ.swap e f) (Memᴰ.tail (Memᴰ.tail m)) = Memᴰ.tail (Memᴰ.tail m)
  mem-Perm (Permᴰ.trans p q) m = mem-Perm q (mem-Perm p m)

module _ {A : Type 0} (key : A → Text) where
  -- No element after `a` has a smaller path.
  abbrev pub IsBelow : A → List A → Type 0
  IsBelow a l = All (λ b. le_path (key a) (key b) ≡ true) l

  abbrev pub IsSorted : List A → Type 0
  IsSorted [] = Unit {0}
  IsSorted (a ∷ l) = IsBelow a l × IsSorted l

  IsBelow-trans :
      (a b : A) (l : List A) → le_path (key a) (key b) ≡ true → IsBelow b l → IsBelow a l
  IsBelow-trans a b [] h below = tt
  IsBelow-trans a b (x ∷ l) h (k, below) =
      (le_path_trans (key a) (key b) (key x) h k, IsBelow-trans a b l h below)

  IsBelow-insert_sorted :
      (a b : A) (l : List A)
      → le_path (key a) (key b) ≡ true
      → IsBelow a l
      → IsBelow a (insert_sorted key b l)
  unfolding insert_sorted
  IsBelow-insert_sorted a b [] h below = (h, tt)
  IsBelow-insert_sorted a b (x ∷ l) h (k, below) = elim (Bool-cases (le_path (key b) (key x))) [
    | inl e ↦ rw e (h, (k, below))
    | inr e ↦ rw e (k, IsBelow-insert_sorted a b l h below)
  ]

  insert_sorted-IsSorted : (a : A) (l : List A) → IsSorted l → IsSorted (insert_sorted key a l)
  unfolding insert_sorted
  insert_sorted-IsSorted a [] s = (tt, tt)
  insert_sorted-IsSorted a (b ∷ l) (below, s) = elim (Bool-cases (le_path (key a) (key b))) [
    | inl e ↦ rw e ((e, IsBelow-trans a b l e below), (below, s))
    | inr e ↦ rw e (
      IsBelow-insert_sorted b a l (le_path-total (key a) (key b) e) below,
      insert_sorted-IsSorted a l s,
    )
  ]

  pub sort_by-IsSorted : (l : List A) → IsSorted (sort_by key l)
  unfolding sort_by
  sort_by-IsSorted [] = tt
  sort_by-IsSorted (a ∷ l) = insert_sorted-IsSorted a (sort_by key l) (sort_by-IsSorted l)
