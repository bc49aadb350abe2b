-- ===== src/Common/Trim.antt =====
-- strings.TrimSpace of Go, and what it leaves alone.
use Prim.Native.Nat.{ℕ}
use mathlib.Core.Path.{◌≡◌, ap}
use mathlib.Core.Bool.{Bool, false, ◌&&◌, ◌||◌}
use mathlib.Core.List.{[], ◌∷◌, ◌++◌}
use librawatch.Common.Tests.{leb, ◌==◌, if◌then◌else◌}
use librawatch.Common.Texts.{Text}

-- unicode.IsSpace
unfoldable pub is_space : ℕ → Bool
is_space c =
    (leb 9 c && leb c 13)
    || (c == 32)
    || (c == 0x85)
    || (c == 0xA0)
    || (c == 0x1680)
    || (leb 0x2000 c && leb c 0x200a)
    || (c == 0x2028)
    || (c == 0x2029)
    || (c == 0x202f)
    || (c == 0x205f)
    || (c == 0x3000)

unfoldable pub trim_left : Text → Text
unfolding is_space
trim_left [] = []
trim_left (c ∷ s) = let rest = trim_left s in if is_space c then rest else c ∷ s

abbrev pub cons_unless_blank : ℕ → Text → Text
cons_unless_blank c [] = if is_space c then [] else c ∷ []
cons_unless_blank c (d ∷ s) = c ∷ d ∷ s

unfoldable pub trim_right : Text → Text
unfolding is_space
trim_right [] = []
trim_right (c ∷ s) = cons_unless_blank c (trim_right s)

-- strings.TrimSpace
unfoldable pub trim_space : Text → Text
unfolding trim_left trim_right
trim_space s = trim_right (trim_left s)

trim_right-append : (s : Text) (d : ℕ) → is_space d ≡ false → trim_right (s ++ d ∷ []) ≡ s ++ d ∷ []
unfolding trim_right
trim_right-append [] d h = rw h
trim_right-append (c ∷ []) d h = ap (cons_unless_blank c) (trim_right-append [] d h)
trim_right-append (c ∷ (e ∷ s)) d h = ap (cons_unless_blank c) (trim_right-append (e ∷ s) d h)

-- A text between two that are no blanks.
pub trim_space_closed :
    (c : ℕ) (s : Text) (d : ℕ)
    → is_space c ≡ false
    → is_space d ≡ false
    → trim_space (c ∷ (s ++ d ∷ [])) ≡ c ∷ (s ++ d ∷ [])
unfolding trim_space trim_left
trim_space_closed c s d h k = rw h (trim_right-append (c ∷ s) d k)
