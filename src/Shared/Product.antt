-- ===== src/Shared/Product.antt =====
-- NormalizeProductCode and SoftwareIdentity.Key of shared/software.go.
use librawatch.Common.{
  ℕ, zero, suc, ◌-◌, Text, codes, to_lower, trim_space, Bool, true, false, ◌&&◌, ◌||◌, leb, ◌==◌,
  if◌then◌else◌, Option, none, some, List, [], ◌∷◌, ◌++◌, map,
}

-- [0-9A-Fa-f]
unfoldable pub is_hex : ℕ → Bool
is_hex c = (leb 48 c && leb c 57) || (leb 65 c && leb c 70) || (leb 97 c && leb c 102)

-- What a place of the code holds: a digit, or else a dash.
abbrev pub hexes : ℕ → List Bool → List Bool
hexes zero rest = rest
hexes (suc n) rest = true ∷ hexes n rest

abbrev pub guid_shape : List Bool
guid_shape = hexes 8 (false ∷ hexes 4 (false ∷ hexes 4 (false ∷ hexes 4 (false ∷ hexes 12 []))))

unfoldable pub fits : List Bool → Text → Bool
unfolding is_hex
fits [] [] = true
fits (b ∷ bs) (c ∷ s) = (if b then is_hex c else c == 45) && fits bs s
fits _ _ = false

-- ^\{? and \}?$ of msiProductCodeRe.
unfoldable pub drop_open : Text → Text
drop_open [] = []
drop_open (c ∷ s) = if c == 123 then s else c ∷ s

abbrev pub cons_unless_close : ℕ → Text → Text
cons_unless_close c [] = if c == 125 then [] else c ∷ []
cons_unless_close c (d ∷ s) = c ∷ d ∷ s

unfoldable pub drop_close : Text → Text
drop_close [] = []
drop_close (c ∷ []) = if c == 125 then [] else c ∷ []
drop_close (c ∷ (d ∷ s)) = c ∷ drop_close (d ∷ s)

unfoldable pub upper : ℕ → ℕ
upper c = if leb 97 c && leb c 122 then c - 32 else c

-- strings.ToUpper, of ASCII.
unfoldable pub to_upper : Text → Text
unfolding upper
to_upper s = map upper s

abbrev pub braced : Text → Text
braced s = 123 ∷ (s ++ 125 ∷ [])

unfoldable pub matched_code : Text → Option Text
unfolding fits to_upper
matched_code s = if fits guid_shape s then some (braced (to_upper s)) else none

unfoldable pub normalize_product_code : Text → Option Text
unfolding matched_code drop_open drop_close trim_space
normalize_product_code raw = matched_code (drop_close (drop_open (trim_space raw)))

pub record SoftwareIdentity : Type 0 where
  pub windows_installer : Bool
  pub product_code : Text
  pub display_name : Text
  pub publisher : Text

unfoldable pub name_key : SoftwareIdentity → Text
unfolding to_lower trim_space
name_key s =
    codes "np:" ++ (to_lower (trim_space s.display_name) ++ 124 ∷ to_lower (trim_space s.publisher))

abbrev pub code_key_or : Text → Option Text → Text
code_key_or other none = other
code_key_or other (some code) = codes "msi:" ++ code

-- SoftwareIdentity.Key
unfoldable pub software_key : SoftwareIdentity → Text
unfolding name_key normalize_product_code
software_key s =
    if s.windows_installer
    then code_key_or (name_key s) (normalize_product_code s.product_code)
    else name_key s
