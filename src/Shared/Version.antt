-- ===== src/Shared/Version.antt =====
-- CompareVersions of shared/software.go.
use librawatch.Common.{
  ℕ, ◌+◌, ◌-◌, ◌*◌, Text, Bool, ◌&&◌, leb, ltb, ◌==◌, if◌then◌else◌, Option, none, some, List, [],
  ◌∷◌,
}
use librawatch.Common.Int.{ℤ, pos, negsuc}

abbrev pub is_digit : ℕ → Bool
is_digit c = leb 48 c && leb c 57

abbrev pub max_uint64 : ℕ
max_uint64 = 18446744073709551615

-- strconv.ParseUint of a run of digits, and the clamp when it is out of range.
abbrev pub clamp : ℕ → ℕ
clamp n = if leb n max_uint64 then n else max_uint64

abbrev pub close_run : Option ℕ → List ℕ → List ℕ
close_run none parts = parts
close_run (some n) parts = clamp n ∷ parts

abbrev pub extend_run : Option ℕ → ℕ → ℕ
extend_run none c = c - 48
extend_run (some n) c = n * 10 + (c - 48)

-- The runs of digits as numbers; the option is the run that is being read.
unfoldable pub runs : Option ℕ → Text → List ℕ
runs current [] = close_run current []
runs current (c ∷ s) =
    let digit = is_digit c in
    let rest = runs (if digit then some (extend_run current c) else none) s in
    if digit then rest else close_run current rest

unfoldable pub extract_version_parts : Text → List ℕ
unfolding runs
extract_version_parts s = runs none s

-- The first two parts that differ decide.
unfoldable pub order_parts : ℕ → ℕ → ℤ → ℤ
order_parts a b rest = if a == b then rest else if ltb a b then negsuc 0 else pos 1

-- The loop over both lists, where a part that is missing counts as 0.
unfoldable pub compare_parts : List ℕ → List ℕ → ℤ
unfolding order_parts
compare_parts [] [] = pos 0
compare_parts (a ∷ x) [] = order_parts a 0 (compare_parts x [])
compare_parts [] (b ∷ y) = order_parts 0 b (compare_parts [] y)
compare_parts (a ∷ x) (b ∷ y) = order_parts a b (compare_parts x y)

abbrev pub is_empty : List ℕ → Bool
is_empty [] = Bool.true
is_empty (a ∷ x) = Bool.false

unfoldable pub compare_versions : Text → Text → Option ℤ
unfolding extract_version_parts compare_parts
compare_versions installed available =
    let a = extract_version_parts installed in
    let b = extract_version_parts available in
    if is_empty a then none else if is_empty b then none else some (compare_parts a b)
