-- ===== src/Prelude/Text/Cut.antt =====
-- `str::split_once`, `str::lines`, `strip_prefix` and `strip_suffix` at one character.
use Prim.Native.Nat.{ℕ}
use mathlib.Core.Path.{◌≡◌, refl}
use mathlib.Core.Logic.{◌≢◌}
use mathlib.Core.Option
use mathlib.Core.Option.{Option, none, some}
use mathlib.Core.List.{List, [], ◌∷◌, ◌++◌, append_assoc, append-nil}
use native.Mathlib.Omega.{arith}
use snap_pipe.Prelude.Tests.{◌==◌, if◌then◌else◌}
use snap_pipe.Prelude.Lists.{All}

module _ (sep : ℕ) where
  -- The parts before and after the first `sep`.
  unfoldable pub split_once : List ℕ → Option (List ℕ × List ℕ)
  split_once [] = none
  split_once (c ∷ s) =
      if c == sep then some ([], s) else Option.map (λ p. (c ∷ p.0, p.1)) (split_once s)

  pub split_once-append :
      (p rest : List ℕ) → All (λ c. c ≢ sep) p → split_once (p ++ sep ∷ rest) ≡ some (p, rest)
  unfolding split_once
  split_once-append [] rest h = ground arith
  split_once-append (c ∷ p) rest h = ground (arith, split_once-append p rest h.1)

  pub split_once-none : (p : List ℕ) → All (λ c. c ≢ sep) p → split_once p ≡ none
  unfolding split_once
  split_once-none [] h = refl
  split_once-none (c ∷ p) h = ground (arith, split_once-none p h.1)

  unfoldable pub strip_prefix : List ℕ → Option (List ℕ)
  strip_prefix [] = none
  strip_prefix (c ∷ s) = if c == sep then some s else none

  unfoldable pub strip_suffix : List ℕ → Option (List ℕ)
  strip_suffix [] = none
  strip_suffix (c ∷ []) = if c == sep then some [] else none
  strip_suffix (c ∷ d ∷ s) = Option.map (λ r. c ∷ r) (strip_suffix (d ∷ s))

  pub strip_suffix-append : (p : List ℕ) → strip_suffix (p ++ sep ∷ []) ≡ some p
  unfolding strip_suffix
  strip_suffix-append [] = ground arith
  strip_suffix-append (c ∷ []) = ground arith
  strip_suffix-append (c ∷ d ∷ p) = ground (arith, strip_suffix-append (d ∷ p))

  pub strip_suffix-none : (p : List ℕ) → All (λ c. c ≢ sep) p → strip_suffix p ≡ none
  unfolding strip_suffix
  strip_suffix-none [] h = refl
  strip_suffix-none (c ∷ []) h = ground arith
  strip_suffix-none (c ∷ d ∷ p) h = rw (strip_suffix-none (d ∷ p) h.1)

  pub strip_suffix-other : (p : List ℕ) (d : ℕ) → d ≢ sep → strip_suffix (p ++ d ∷ []) ≡ none
  unfolding strip_suffix
  strip_suffix-other [] d h = ground arith
  strip_suffix-other (c ∷ []) d h = ground arith
  strip_suffix-other (c ∷ e ∷ p) d h = rw (strip_suffix-other (e ∷ p) d h)

abbrev pub newline : ℕ
newline = 10

-- A line loses one carriage return before its line feed.
unfoldable pub strip_cr : List ℕ → List ℕ
unfolding strip_suffix
strip_cr s = Option.get_or (strip_suffix 13 s) s

-- `cur` is the part of the current line that has been read.
unfoldable pub lines_from : List ℕ → List ℕ → List (List ℕ)
unfolding strip_cr
lines_from [] [] = []
lines_from (c ∷ cur) [] = (c ∷ cur) ∷ []
lines_from cur (c ∷ s) =
    let next = strip_cr cur ∷ lines_from [] s in
    let more = lines_from (cur ++ c ∷ []) s in if c == newline then next else more

unfoldable pub lines : List ℕ → List (List ℕ)
unfolding lines_from
lines s = lines_from [] s

pub lines_from-append :
    (p rest cur : List ℕ)
    → All (λ c. c ≢ newline) p
    → lines_from cur (p ++ newline ∷ rest) ≡ strip_cr (cur ++ p) ∷ lines_from [] rest
unfolding lines_from
lines_from-append [] rest cur h = rw append-nil
lines_from-append (c ∷ p) rest cur h =
    ground (arith, lines_from-append p rest (cur ++ c ∷ []) h.1, append_assoc cur (c ∷ []) p)
