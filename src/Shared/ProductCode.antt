-- ===== src/Shared/ProductCode.antt =====
-- A product code that was normalized once stays as it is.
use librawatch.Common.{
  ℕ, Text, text_eq, trim_space, trim_space_closed, Bool, true, false, if◌then◌else◌, Option, none,
  some, List, [], ◌∷◌, ◌++◌, ◌≡◌, refl, ap, ◌∙◌, subst, arith,
}
use librawatch.Shared.Product.{
  is_hex, guid_shape, fits, drop_open, drop_close, upper, to_upper, braced, matched_code,
  normalize_product_code, SoftwareIdentity, software_key, name_key, code_key_or,
}

upper_idem : (c : ℕ) → upper (upper c) ≡ upper c
unfolding upper
upper_idem c = ground arith

to_upper_idem : (s : Text) → to_upper (to_upper s) ≡ to_upper s
unfolding to_upper
to_upper_idem [] = refl
to_upper_idem (c ∷ s) = cc (upper_idem c, to_upper_idem s)

fits-to_upper : (bs : List Bool) (s : Text) → fits bs s ≡ true → fits bs (to_upper s) ≡ true
unfolding fits to_upper upper is_hex
fits-to_upper [] [] h = refl
fits-to_upper [] (c ∷ s) h = cc
fits-to_upper (b ∷ bs) [] h = cc
fits-to_upper (true ∷ bs) (c ∷ s) h = ground (arith, fits-to_upper bs s)
fits-to_upper (false ∷ bs) (c ∷ s) h = ground (arith, fits-to_upper bs s)

drop_close-append : (s : Text) → drop_close (s ++ 125 ∷ []) ≡ s
unfolding drop_close
drop_close-append [] = refl
drop_close-append (c ∷ []) = refl
drop_close-append (c ∷ (d ∷ s)) = ap (λ t. c ∷ t) (drop_close-append (d ∷ s))

normalize-braced : (s : Text) → normalize_product_code (braced s) ≡ matched_code s
unfolding normalize_product_code
normalize-braced s =
    ap (λ t. matched_code (drop_close (drop_open t))) (trim_space_closed 123 s 125 refl refl)
    ∙ ap matched_code (unfold drop_open in drop_close-append s)

matched_code_idem :
    (s : Text) {code : Text} → matched_code s ≡ some code → normalize_product_code code ≡ some code
unfolding matched_code
matched_code_idem s {code} h = split (fits guid_shape s) refl h
  where
    split :
        (b : Bool)
        → fits guid_shape s ≡ b
        → (if b then some (braced (to_upper s)) else none) ≡ some code
        → normalize_product_code code ≡ some code
    split true e k =
        let same : braced (to_upper s) ≡ code = cc in
        subst (λ c. normalize_product_code c ≡ some c) same
          (normalize-braced (to_upper s)
            ∙ (rw (fits-to_upper guid_shape s e, to_upper_idem s) refl))
    split false e k = cc

-- The code that a text is normalized to is normalized to itself.
pub normalize_product_code_idem :
    (raw : Text) {code : Text}
    → normalize_product_code raw ≡ some code
    → normalize_product_code code ≡ some code
unfolding normalize_product_code
normalize_product_code_idem raw h = matched_code_idem (drop_close (drop_open (trim_space raw))) h

pub software_key-some : (s : SoftwareIdentity) → text_eq (software_key s) [] ≡ false
unfolding software_key name_key text_eq
software_key-some s = split s.windows_installer (normalize_product_code s.product_code)
  where
    split :
        (b : Bool) (o : Option Text)
        → text_eq (if b then code_key_or (name_key s) o else name_key s) [] ≡ false
    split true none = refl
    split true (some code) = refl
    split false o = refl
