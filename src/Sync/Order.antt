-- ===== src/Sync/Order.antt =====
-- src/sync.rs, sort_by: on distinct paths the order of what is sorted does not matter.
use snap_pipe.Prelude.{
  ◌≡◌, ◌≢◌, refl, ap, ◌∙◌, subst, true, false, none, List, [], ◌∷◌, Bool-cases, inl, inr, arith,
}
use mathlib.Core.List.{Permᴰ}
use mathlib.Core.List.Permᴰ
use snap_pipe.Prelude.Text.{Text, text_eq, text_eq_iff}
use snap_pipe.Sync.{le_path, insert_sorted, sort_by}
use snap_pipe.Sync.Sort.{find, UniquePaths}

pub le_path-total : (s t : Text) → le_path s t ≡ false → le_path t s ≡ true
unfolding le_path
le_path-total [] t h = cc
le_path-total (c ∷ s) [] h = refl
le_path-total (c ∷ s) (d ∷ t) h = ground (arith, le_path-total s t)

le_path-antisym : (s t : Text) → le_path s t ≡ true → le_path t s ≡ true → s ≡ t
unfolding le_path
le_path-antisym [] [] h k = refl
le_path-antisym [] (d ∷ t) h k = cc
le_path-antisym (c ∷ s) [] h k = cc
le_path-antisym (c ∷ s) (d ∷ t) h k = ground (arith, le_path-antisym s t)

pub le_path_trans : (s t u : Text) → le_path s t ≡ true → le_path t u ≡ true → le_path s u ≡ true
unfolding le_path
le_path_trans [] t u h k = refl
le_path_trans (c ∷ s) [] u h k = cc
le_path_trans (c ∷ s) (d ∷ t) [] h k = cc
le_path_trans (c ∷ s) (d ∷ t) (e ∷ u) h k = ground (arith, le_path_trans s t u)

module _ {A : Type 0} (key : A → Text) where
  insert_swap :
      (a b : A) (l : List A)
      → key a ≢ key b
      → insert_sorted key a (insert_sorted key b l) ≡ insert_sorted key b (insert_sorted key a l)
  unfolding insert_sorted
  insert_swap a b [] apart =
      ground (arith, le_path-total (key a) (key b), le_path-antisym (key a) (key b))
  insert_swap a b (x ∷ l) apart = ground (
    arith,
    le_path-total (key a) (key b),
    le_path-antisym (key a) (key b),
    le_path-total (key a) (key x),
    le_path-total (key b) (key x),
    le_path_trans (key a) (key b) (key x),
    le_path_trans (key b) (key a) (key x),
    insert_swap a b l apart,
  )

  find-Perm : {l l' : List A} (p : Text) → Permᴰ l l' → find key p l ≡ none → find key p l' ≡ none
  unfolding find
  find-Perm p Permᴰ.nil h = h
  find-Perm p (Permᴰ.cons {a} {b} {l₁} {l₂} e q) h =
      ground (arith, find-Perm p q, ap (λ x. text_eq (key x) p) e)
  find-Perm p (Permᴰ.swap {a} {b} {a'} {b'} {l} e f) h =
      ground (arith, ap (λ x. text_eq (key x) p) e, ap (λ x. text_eq (key x) p) f)
  find-Perm p (Permᴰ.trans q r) h = find-Perm p r (find-Perm p q h)

  pub UniquePaths-Perm : {l l' : List A} → Permᴰ l l' → UniquePaths key l → UniquePaths key l'
  unfolding find
  UniquePaths-Perm Permᴰ.nil u = u
  UniquePaths-Perm (Permᴰ.cons {a} {b} {l₁} {l₂} e q) (new, u) =
      (subst (λ x. find key (key x) l₂ ≡ none) e (find-Perm (key a) q new), UniquePaths-Perm q u)
  UniquePaths-Perm (Permᴰ.swap {a} {b} {a'} {b'} {l} e f) (new, (new', u)) =
      subst (λ x. UniquePaths key (x ∷ b' ∷ l)) f
        (subst (λ x. UniquePaths key (b ∷ x ∷ l)) e
          (
            ground (arith, text_eq_iff (key a) (key b), text_eq_iff (key b) (key a)),
            (ground (arith, text_eq_iff (key a) (key b), text_eq_iff (key b) (key a)), u),
          ))
  UniquePaths-Perm (Permᴰ.trans q r) u = UniquePaths-Perm r (UniquePaths-Perm q u)

  apart_of_unique : (a b : A) (l : List A) → find key (key a) (b ∷ l) ≡ none → key a ≢ key b
  unfolding find
  apart_of_unique a b l h = ground (arith, text_eq_iff (key b) (key a))

  pub sort_by-Perm :
      {l l' : List A} → Permᴰ l l' → UniquePaths key l → sort_by key l ≡ sort_by key l'
  unfolding sort_by
  sort_by-Perm Permᴰ.nil u = refl
  sort_by-Perm (Permᴰ.cons {a} {b} {l₁} {l₂} e q) (new, u) =
      ap (insert_sorted key a) (sort_by-Perm q u) ∙ ap (λ x. insert_sorted key x (sort_by key l₂)) e
  sort_by-Perm (Permᴰ.swap {a} {b} {a'} {b'} {l} e f) (new, u) =
      insert_swap a b (sort_by key l) (apart_of_unique a b l new)
      ∙ ap (λ x. insert_sorted key x (insert_sorted key a (sort_by key l))) f
      ∙ ap (λ x. insert_sorted key a' (insert_sorted key x (sort_by key l))) e
  sort_by-Perm (Permᴰ.trans q r) u = sort_by-Perm q u ∙ sort_by-Perm r (UniquePaths-Perm q u)

  insert_sorted-Perm : (a : A) (l : List A) → Permᴰ (insert_sorted key a l) (a ∷ l)
  unfolding insert_sorted
  insert_sorted-Perm a [] = Permᴰ.refl (a ∷ [])
  insert_sorted-Perm a (b ∷ l) = elim (Bool-cases (le_path (key a) (key b))) [
    | inl h ↦ rw h (Permᴰ.refl (a ∷ b ∷ l))
    | inr h ↦ rw h (Permᴰ.trans (Permᴰ.cons refl (insert_sorted-Perm a l)) (Permᴰ.swap refl refl))
  ]

  pub sort_by_permutes : (l : List A) → Permᴰ (sort_by key l) l
  unfolding sort_by
  sort_by_permutes [] = Permᴰ.nil
  sort_by_permutes (a ∷ l) =
      Permᴰ.trans (insert_sorted-Perm a (sort_by key l)) (Permᴰ.cons refl (sort_by_permutes l))
