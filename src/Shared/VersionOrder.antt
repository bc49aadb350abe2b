-- ===== src/Shared/VersionOrder.antt =====
-- CompareVersions orders the versions.
use librawatch.Common.{
  ℕ, zero, suc, ap, Text, false, ◌≡◌, refl, if◌then◌else◌, Option, none, some, List, [], ◌∷◌, arith,
  ◌⊎◌, inl,
}
use librawatch.Common.Int.{ℤ, pos, negsuc}
use librawatch.Shared.Version.{
  extract_version_parts, order_parts, compare_parts, compare_versions, is_empty,
}

-- The opposite result.
abbrev pub flip : ℤ → ℤ
flip (pos zero) = pos 0
flip (pos (suc n)) = negsuc 0
flip (negsuc n) = pos 1

abbrev pub flip_option : Option ℤ → Option ℤ
flip_option none = none
flip_option (some z) = some (flip z)

order_parts-flip :
    (a b : ℕ) (rest back : ℤ)
    → back ≡ flip rest
    → order_parts b a back ≡ flip (order_parts a b rest)
unfolding order_parts
order_parts-flip a b rest back h = ground arith

compare_parts-flip : (x y : List ℕ) → compare_parts y x ≡ flip (compare_parts x y)
unfolding compare_parts
compare_parts-flip [] [] = refl
compare_parts-flip (a ∷ x) [] = order_parts-flip a 0 _ _ (compare_parts-flip x [])
compare_parts-flip [] (b ∷ y) = order_parts-flip 0 b _ _ (compare_parts-flip [] y)
compare_parts-flip (a ∷ x) (b ∷ y) = order_parts-flip a b _ _ (compare_parts-flip x y)

-- To swap the versions turns the result round, and what cannot be compared one way cannot be
-- compared the other way.
pub compare_versions-flip : (a b : Text) → compare_versions b a ≡ flip_option (compare_versions a b)
unfolding compare_versions
compare_versions-flip a b = cases (extract_version_parts a) (extract_version_parts b)
  where
    cases :
        (x y : List ℕ)
        → (if is_empty y then none else if is_empty x then none else some (compare_parts y x))
          ≡ flip_option
              (if is_empty x then none else if is_empty y then none else some (compare_parts x y))
    cases [] [] = refl
    cases [] (b ∷ y) = refl
    cases (a ∷ x) [] = refl
    cases (a ∷ x) (b ∷ y) = ap some (compare_parts-flip (a ∷ x) (b ∷ y))

-- Not newer.
abbrev pub IsUpTo : ℤ → Type 0
IsUpTo z = (z ≡ pos 0) ⊎ (z ≡ negsuc 0)

order_parts_trans :
    (a b c : ℕ) (p q r : ℤ)
    → (IsUpTo p → IsUpTo q → IsUpTo r)
    → IsUpTo (order_parts a b p)
    → IsUpTo (order_parts b c q)
    → IsUpTo (order_parts a c r)
unfolding order_parts
order_parts_trans a b c p q r h k l = ground arith

compare_parts_trans :
    (x y z : List ℕ)
    → IsUpTo (compare_parts x y)
    → IsUpTo (compare_parts y z)
    → IsUpTo (compare_parts x z)
unfolding compare_parts
compare_parts_trans [] [] [] h k = h
compare_parts_trans [] [] (c ∷ z) h k = k
compare_parts_trans [] (b ∷ y) [] h k = inl refl
compare_parts_trans [] (b ∷ y) (c ∷ z) h k =
    order_parts_trans 0 b c _ _ _ (compare_parts_trans [] y z) h k
compare_parts_trans (a ∷ x) [] [] h k = h
compare_parts_trans (a ∷ x) [] (c ∷ z) h k =
    order_parts_trans a 0 c _ _ _ (compare_parts_trans x [] z) h k
compare_parts_trans (a ∷ x) (b ∷ y) [] h k =
    order_parts_trans a b 0 _ _ _ (compare_parts_trans x y []) h k
compare_parts_trans (a ∷ x) (b ∷ y) (c ∷ z) h k =
    order_parts_trans a b c _ _ _ (compare_parts_trans x y z) h k

-- Not newer, as the callers see it.
abbrev pub IsNotNewer : Text → Text → Type 0
IsNotNewer a b = (compare_versions a b ≡ some (pos 0)) ⊎ (compare_versions a b ≡ some (negsuc 0))

IsUpTo-of :
    (a b : Text)
    → IsNotNewer a b
    → (is_empty (extract_version_parts a) ≡ false)
      × (is_empty (extract_version_parts b) ≡ false)
      × IsUpTo (compare_parts (extract_version_parts a) (extract_version_parts b))
unfolding compare_versions
IsUpTo-of a b h = ground arith

-- A version that is not newer than a second one, which is not newer than a third, is not newer
-- than the third.
pub compare_versions_trans : (a b c : Text) → IsNotNewer a b → IsNotNewer b c → IsNotNewer a c
compare_versions_trans a b c h k =
    let (p, q, l) = IsUpTo-of a b h in
    let (q', r, m) = IsUpTo-of b c k in
    let n =
      compare_parts_trans (extract_version_parts a) (extract_version_parts b)
        (extract_version_parts c) l m in
    back p r n
  where
    back :
        is_empty (extract_version_parts a) ≡ false
        → is_empty (extract_version_parts c) ≡ false
        → IsUpTo (compare_parts (extract_version_parts a) (extract_version_parts c))
        → IsNotNewer a c
    back p r n = unfold compare_versions in ground arith
