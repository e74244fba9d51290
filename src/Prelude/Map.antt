-- ===== src/Prelude/Map.antt =====
-- Rust's `HashMap` with keys that are texts or byte strings, as an association list. The list's
-- order stands for the order of iteration, which Rust leaves open.
use mathlib.Core.List.{List, [], ◌∷◌, ◌++◌, append-nil, append_assoc}
use Prim.Native.Nat.{◌+◌, ◌≤◌}
use mathlib.Core.Path.{◌≡◌, refl, sym, ◌∙◌}
use mathlib.Core.Logic.{inl, inr}
use mathlib.Core.Bool.{Bool, true, false}
use mathlib.Core.Option.{Option, none, some}
use native.Mathlib.Omega.{arith}
use snap_pipe.Prelude.Tests.{if◌then◌else◌, Bool-cases}
use snap_pipe.Prelude.Lists.{length}
use snap_pipe.Prelude.Text.{Text, text_eq, text_eq_iff}

abbrev pub HashMap {ℓ} : Type ℓ → Type ℓ
HashMap V = List (Text × V)

module _ {ℓ} {V : Type ℓ} where
  unfoldable pub lookup : Text → HashMap V → Option V
  lookup k [] = none
  lookup k ((j, v) ∷ m) = if text_eq j k then some v else lookup k m

  abbrev pub contains_key : Text → HashMap V → Bool
  contains_key k m = elim (lookup k m) [ none ↦ false | some v ↦ true ]

  -- A new key is added at the end; a value in the map is replaced in its place.
  unfoldable pub insert : Text → V → HashMap V → HashMap V
  insert k v [] = (k, v) ∷ []
  insert k v ((j, w) ∷ m) = if text_eq j k then (j, v) ∷ m else (j, w) ∷ insert k v m

  unfoldable pub remove : Text → HashMap V → HashMap V
  remove k [] = []
  remove k ((j, w) ∷ m) = if text_eq j k then m else (j, w) ∷ remove k m

  unfoldable pub retain : (Text → V → Bool) → HashMap V → HashMap V
  retain p [] = []
  retain p ((j, w) ∷ m) = let rest = retain p m in if p j w then (j, w) ∷ rest else rest

  -- No key stands in the map twice.
  abbrev pub UniqueKeys : HashMap V → Type ℓ
  UniqueKeys [] = Unit
  UniqueKeys ((k, v) ∷ m) = (lookup k m ≡ none) × UniqueKeys m

  pub lookup-insert :
      (k j : Text) (v : V) (m : HashMap V)
      → lookup j (insert k v m) ≡ (if text_eq k j then some v else lookup j m)
  unfolding lookup insert
  lookup-insert k j v [] = refl
  lookup-insert k j v ((i, w) ∷ m) =
      ground (arith, text_eq_iff k j, text_eq_iff i k, text_eq_iff i j, lookup-insert k j v m)

  pub insert-UniqueKeys :
      (k : Text) (v : V) (m : HashMap V) → UniqueKeys m → UniqueKeys (insert k v m)
  unfolding insert
  insert-UniqueKeys k v [] u = (unfold lookup in refl, tt)
  insert-UniqueKeys k v ((j, w) ∷ m) u = elim (Bool-cases (text_eq j k)) [
    | inl e ↦ rw e u
    | inr e ↦ rw e (
      ground (arith, lookup-insert k j v m, text_eq_iff j k, text_eq_iff k j),
      insert-UniqueKeys k v m u.1,
    )
  ]

  pub lookup-remove :
      (k j : Text) (m : HashMap V)
      → UniqueKeys m
      → lookup j (remove k m) ≡ (if text_eq k j then none else lookup j m)
  unfolding lookup remove
  lookup-remove k j [] u = ground arith
  lookup-remove k j ((i, w) ∷ m) u =
      ground (arith, text_eq_iff k j, text_eq_iff i k, text_eq_iff i j, lookup-remove k j m u.1)

  pub remove-UniqueKeys : (k : Text) (m : HashMap V) → UniqueKeys m → UniqueKeys (remove k m)
  unfolding remove
  remove-UniqueKeys k [] u = tt
  remove-UniqueKeys k ((j, w) ∷ m) u = elim (Bool-cases (text_eq j k)) [
    | inl e ↦ rw e u.1
    | inr e ↦ rw e (ground (arith, lookup-remove k j m u.1), remove-UniqueKeys k m u.1)
  ]

  -- The entry of a key after `retain`.
  abbrev pub kept : (Text → V → Bool) → Text → Option V → Option V
  kept p k none = none
  kept p k (some v) = if p k v then some v else none

  pub lookup-retain :
      (p : Text → V → Bool) (k : Text) (m : HashMap V)
      → UniqueKeys m
      → lookup k (retain p m) ≡ kept p k (lookup k m)
  unfolding lookup retain
  lookup-retain p k [] u = refl
  lookup-retain p k ((j, w) ∷ m) u = ground (arith, text_eq_iff j k, lookup-retain p k m u.1)

  pub retain-UniqueKeys :
      (p : Text → V → Bool) (m : HashMap V) → UniqueKeys m → UniqueKeys (retain p m)
  unfolding retain
  retain-UniqueKeys p [] u = tt
  retain-UniqueKeys p ((j, w) ∷ m) u =
      ground (arith, lookup-retain p j m u.1, retain-UniqueKeys p m u.1)

  pub length-retain : (p : Text → V → Bool) (m : HashMap V) → length (retain p m) ≤ length m
  unfolding retain
  length-retain p [] = omega arith
  length-retain p ((j, w) ∷ m) = ground (arith, length-retain p m)

  -- The size grows by one exactly at a new key.
  pub length-insert :
      (k : Text) (v : V) (m : HashMap V)
      → length (insert k v m) ≡ (if contains_key k m then length m else length m + 1)
  unfolding insert lookup
  length-insert k v [] = omega arith
  length-insert k v ((j, w) ∷ m) = ground (arith, length-insert k v m)

  -- The entries inserted one by one.
  unfoldable pub insert_all : HashMap V → List (Text × V) → HashMap V
  insert_all m [] = m
  insert_all m ((k, v) ∷ es) = insert_all (insert k v m) es

  insert-new :
      (k : Text) (v : V) (m : HashMap V) → lookup k m ≡ none → insert k v m ≡ m ++ (k, v) ∷ []
  unfolding insert lookup
  insert-new k v [] h = refl
  insert-new k v ((j, w) ∷ m) h = ground (arith, insert-new k v m)

  not-key-middle :
      (j : Text) (m : HashMap V) (k : Text) (v : V) (es : List (Text × V))
      → lookup j (m ++ (k, v) ∷ es) ≡ none
      → text_eq k j ≡ false
  unfolding lookup
  not-key-middle j [] k v es h = ground arith
  not-key-middle j ((i, w) ∷ m) k v es h = ground (arith, not-key-middle j m k v es)

  UniqueKeys-middle :
      (m : HashMap V) (k : Text) (v : V) (es : List (Text × V))
      → UniqueKeys (m ++ (k, v) ∷ es)
      → lookup k m ≡ none
  unfolding lookup
  UniqueKeys-middle [] k v es u = refl
  UniqueKeys-middle ((j, w) ∷ m) k v es u = ground (
    arith,
    UniqueKeys-middle m k v es u.1,
    not-key-middle j m k v es u.0,
    text_eq_iff j k,
    text_eq_iff k j,
  )

  -- Inserting entries with distinct new keys appends them.
  pub insert_all-append :
      (m : HashMap V) (es : List (Text × V)) → UniqueKeys (m ++ es) → insert_all m es ≡ m ++ es
  unfolding insert_all
  insert_all-append m [] u = sym (append-nil m)
  insert_all-append m ((k, v) ∷ es) u = rw (insert-new k v m (UniqueKeys-middle m k v es u)) (
      insert_all-append (m ++ (k, v) ∷ []) es (rw append_assoc u) ∙ append_assoc m ((k, v) ∷ []) es)
