-- ===== src/Prelude/Text/Trim.antt =====
-- `str::trim`, which drops the characters with Unicode's White_Space property at both ends.
use Prim.Native.Nat.{ℕ}
use mathlib.Core.Path.{◌≡◌, refl, ◌∙◌, ap}
use mathlib.Core.Bool.{Bool, true, false, ◌&&◌, ◌||◌}
use mathlib.Core.List.{List, [], ◌∷◌, ◌++◌, reverse, reverse-append, reverse-reverse, reverse-cons}
use snap_pipe.Prelude.Tests.{leb, ◌==◌, if◌then◌else◌}
use snap_pipe.Prelude.Lists.{All, All-reverse}

-- `char::is_whitespace`
unfoldable pub is_whitespace : ℕ → Bool
is_whitespace c =
    (leb 9 c && leb c 13)
    || (c == 32)
    || (c == 0x85)
    || (c == 0xa0)
    || (c == 0x1680)
    || (leb 0x2000 c && leb c 0x200a)
    || (c == 0x2028)
    || (c == 0x2029)
    || (c == 0x202f)
    || (c == 0x205f)
    || (c == 0x3000)

unfoldable pub trim_start : List ℕ → List ℕ
unfolding is_whitespace
trim_start [] = []
trim_start (c ∷ s) = if is_whitespace c then trim_start s else c ∷ s

unfoldable pub trim : List ℕ → List ℕ
unfolding trim_start
trim s = reverse (trim_start (reverse (trim_start s)))

abbrev pub IsInk : ℕ → Type 0
IsInk c = is_whitespace c ≡ false

trim_start-ink : (c : ℕ) (s : List ℕ) → IsInk c → trim_start (c ∷ s) ≡ c ∷ s
unfolding trim_start
trim_start-ink c s h = rw h

-- A text that begins and ends with characters that are no white space is left as it is.
pub trim-ends :
    (c : ℕ) (s : List ℕ) (d : ℕ) → IsInk c → IsInk d → trim (c ∷ (s ++ d ∷ [])) ≡ c ∷ (s ++ d ∷ [])
unfolding trim
trim-ends c s d hc hd =
    rw (trim_start-ink c (s ++ d ∷ []) hc, reverse-append (c ∷ s) (d ∷ []))
      (rw (trim_start-ink d (reverse (c ∷ s)) hd)
        (reverse-cons d (reverse (c ∷ s)) ∙ ap (λ t. t ++ d ∷ []) (reverse-reverse (c ∷ s))))

trim_start-All : (s : List ℕ) → All IsInk s → trim_start s ≡ s
unfolding trim_start
trim_start-All [] h = refl
trim_start-All (c ∷ s) h = rw h.0

-- So is a text with no white space at all.
pub trim-All : (s : List ℕ) → All IsInk s → trim s ≡ s
unfolding trim
trim-All s h =
    rw (trim_start-All s h, trim_start-All (reverse s) (All-reverse IsInk s h)) (reverse-reverse s)

-- Spaces around a text are dropped.
pub trim-leading : (s : List ℕ) → trim (32 ∷ s) ≡ trim s
unfolding trim is_whitespace
trim-leading s = refl

trim_start-space : (s : List ℕ) → All IsInk s → trim_start (32 ∷ s) ≡ s
trim_start-space s h = unfold trim_start is_whitespace in trim_start-All s h

pub trim-space : (s : List ℕ) → All IsInk s → trim (s ++ 32 ∷ []) ≡ s
unfolding trim
trim-space [] h = unfold trim_start is_whitespace in refl
trim-space (c ∷ s) h =
    rw (trim_start-ink c (s ++ 32 ∷ []) h.0, reverse-append (c ∷ s) (32 ∷ []))
      (ap reverse (trim_start-space (reverse (c ∷ s)) (All-reverse IsInk (c ∷ s) h))
        ∙ reverse-reverse (c ∷ s))

trim_start-white : (c : ℕ) (s : List ℕ) → is_whitespace c ≡ true → trim_start (c ∷ s) ≡ trim_start s
unfolding trim_start
trim_start-white c s h = rw h

-- White space at the end is dropped.
pub trim-white :
    (c : ℕ) (s : List ℕ) (w : ℕ)
    → IsInk c
    → is_whitespace w ≡ true
    → trim ((c ∷ s) ++ w ∷ []) ≡ trim (c ∷ s)
unfolding trim
trim-white c s w hc hw =
    rw (trim_start-ink c (s ++ w ∷ []) hc, trim_start-ink c s hc, reverse-append (c ∷ s) (w ∷ []))
      (rw (trim_start-white w (reverse (c ∷ s)) hw))

pub trim-newline : (s : List ℕ) → All IsInk s → trim (s ++ 10 ∷ []) ≡ s
trim-newline [] h = unfold trim trim_start is_whitespace in refl
trim-newline (c ∷ s) h = trim-white c s 10 h.0 (unfold is_whitespace in refl) ∙ trim-All (c ∷ s) h
