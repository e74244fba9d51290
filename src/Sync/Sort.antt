-- ===== src/Sync/Sort.antt =====
-- src/sync.rs: entries found by their path, before and after sorting.
use snap_pipe.Prelude.{◌≡◌, refl, ap, ◌∙◌, Option, none, some, List, [], ◌∷◌, if◌then◌else◌, arith}
use snap_pipe.Prelude.Text.{Text, text_eq, text_eq_iff}
use snap_pipe.Sync.{insert_sorted, sort_by}

module _ {A : Type 0} (key : A → Text) where
  unfoldable pub find : Text → List A → Option A
  find p [] = none
  find p (a ∷ xs) = if text_eq (key a) p then some a else find p xs

  -- No path stands in the list twice.
  abbrev pub UniquePaths : List A → Type 0
  UniquePaths [] = Unit
  UniquePaths (a ∷ xs) = (find (key a) xs ≡ none) × UniquePaths xs

  find-insert_sorted :
      (p : Text) (a : A) (xs : List A)
      → find (key a) xs ≡ none
      → find p (insert_sorted key a xs) ≡ (if text_eq (key a) p then some a else find p xs)
  unfolding find insert_sorted
  find-insert_sorted p a [] new = refl
  find-insert_sorted p a (b ∷ bs) new = ground (
    arith,
    text_eq_iff (key a) p,
    text_eq_iff (key b) p,
    text_eq_iff (key b) (key a),
    find-insert_sorted p a bs,
  )

  pub find-sort_by : (p : Text) (xs : List A) → UniquePaths xs → find p (sort_by key xs) ≡ find p xs
  unfolding find sort_by
  find-sort_by p [] u = refl
  find-sort_by p (a ∷ xs) u =
      find-insert_sorted p a (sort_by key xs) (find-sort_by (key a) xs u.1 ∙ u.0)
      ∙ ap (λ o. if text_eq (key a) p then some a else o) (find-sort_by p xs u.1)
