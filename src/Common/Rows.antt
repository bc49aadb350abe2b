-- ===== src/Common/Rows.antt =====
-- What the row operations of a table do.
use Prim.Native.Nat.{◌+◌, ◌≤◌}
use mathlib.Core.Path.{◌≡◌, refl, sym, subst}
use mathlib.Core.Bool.{Bool, true, false}
use mathlib.Core.Option.{none, some}
use mathlib.Core.List.{List, [], ◌∷◌, ◌++◌, Memᴰ}
use native.Mathlib.Omega.{arith}
use librawatch.Common.Tests.{if◌then◌else◌}
use librawatch.Common.Lists.{length, All, map_where, count_where, filter, find}

module _ {ℓ} {A : Type ℓ} where
  pub count_where-append :
      (p : A → Bool) (xs ys : List A)
      → count_where p (xs ++ ys) ≡ count_where p xs + count_where p ys
  unfolding count_where
  count_where-append p [] ys = omega arith
  count_where-append p (x ∷ xs) ys = omega (arith, count_where-append p xs ys)

  pub length-filter-le : (p : A → Bool) (xs : List A) → length (filter p xs) ≤ length xs
  unfolding filter
  length-filter-le p [] = omega arith
  length-filter-le p (x ∷ xs) = ground (arith, length-filter-le p xs)

  pub All-filter {κ} :
      (P : A → Type κ) (p : A → Bool) (xs : List A) → All P xs → All P (filter p xs)
  unfolding filter
  All-filter P p [] h = h
  All-filter P p (x ∷ xs) h = ground (arith, All-filter P p xs h.1)

  -- What a filter keeps passes its test.
  pub filter-All : (p : A → Bool) (xs : List A) → All (λ x. p x ≡ true) (filter p xs)
  unfolding filter
  filter-All p [] = tt
  filter-All p (x ∷ xs) = ground (arith, filter-All p xs)

  pub find-passes : (p : A → Bool) (xs : List A) {x : A} → find p xs ≡ some x → p x ≡ true
  unfolding find
  find-passes p [] h = cc
  find-passes p (y ∷ xs) {x} h = ground (arith, find-passes p xs {x = x})

  pub count_where-none : (p : A → Bool) (xs : List A) → count_where p xs ≡ 0 → find p xs ≡ none
  unfolding count_where find
  count_where-none p [] h = refl
  count_where-none p (x ∷ xs) h = ground (arith, count_where-none p xs)

  -- An UPDATE whose test no row passes.
  pub map_where_none :
      (p : A → Bool) (f : A → A) (xs : List A) → All (λ x. p x ≡ false) xs → map_where p f xs ≡ xs
  unfolding map_where
  map_where_none p f [] h = refl
  map_where_none p f (x ∷ xs) h = ground (arith, map_where_none p f xs)

  pub count_where_zero :
      (p : A → Bool) (xs : List A) → All (λ x. p x ≡ false) xs → count_where p xs ≡ 0
  unfolding count_where
  count_where_zero p [] h = refl
  count_where_zero p (x ∷ xs) h = ground (arith, count_where_zero p xs)

  pub All-map {κ μ} :
      (P : A → Type κ) (Q : A → Type μ)
      → ((x : A) → P x → Q x)
      → (xs : List A) → All P xs
      → All Q xs
  All-map P Q f [] h = tt
  All-map P Q f (x ∷ xs) h = (f x h.0, All-map P Q f xs h.1)

  pub All-map_where {κ μ} :
      (P : A → Type κ) (Q : A → Type μ) (p : A → Bool) (f : A → A)
      → ((x : A) → P x → Q (if p x then f x else x))
      → (xs : List A) → All P xs
      → All Q (map_where p f xs)
  unfolding map_where
  All-map_where P Q p f keep [] h = tt
  All-map_where P Q p f keep (x ∷ xs) h = (keep x h.0, All-map_where P Q p f keep xs h.1)

  -- The rows of an UPDATE that another test selects, where it leaves those alone.
  pub filter-map_where :
      (q p : A → Bool) (f : A → A)
      → ((x : A) → q (f x) ≡ q x)
      → (xs : List A) → All (λ x. q x ≡ true → p x ≡ false) xs
      → filter q (map_where p f xs) ≡ filter q xs
  unfolding filter map_where
  filter-map_where q p f same [] h = refl
  filter-map_where q p f same (x ∷ xs) h =
      ground (arith, same x, h.0, filter-map_where q p f same xs h.1)

  pub filter-append :
      (p : A → Bool) (xs ys : List A) → filter p (xs ++ ys) ≡ filter p xs ++ filter p ys
  unfolding filter
  filter-append p [] ys = refl
  filter-append p (x ∷ xs) ys = ground (arith, filter-append p xs ys)

  pub All-of_filter {κ} :
      (P : A → Type κ) (q : A → Bool) (xs : List A)
      → All P (filter q xs)
      → All (λ x. q x ≡ true → P x) xs
  unfolding filter
  All-of_filter P q [] h = tt
  All-of_filter P q (x ∷ xs) h = split (q x) h (All-of_filter P q xs)
    where
      split :
          (b : Bool)
          → All P (if b then x ∷ filter q xs else filter q xs)
          → (All P (filter q xs) → All (λ y. q y ≡ true → P y) xs)
          → (b ≡ true → P x) × All (λ y. q y ≡ true → P y) xs
      split true h ih = (λ _. h.0, ih h.1)
      split false h ih = (λ e. cc, ih h)

  pub filter_none : (q : A → Bool) (xs : List A) → count_where q xs ≡ 0 → filter q xs ≡ []
  unfolding count_where filter
  filter_none q [] h = refl
  filter_none q (x ∷ xs) h = ground (arith, filter_none q xs)

  pub All-mem {κ} : (P : A → Type κ) (xs : List A) {x : A} → Memᴰ x xs → All P xs → P x
  All-mem P [] m h = elim m [ ]
  All-mem P (x ∷ xs) (Memᴰ.head e) h = subst P (sym e) h.0
  All-mem P (x ∷ xs) (Memᴰ.tail m) h = All-mem P xs m h.1

  pub All-of_mem {κ} : (P : A → Type κ) (xs : List A) → ((x : A) → Memᴰ x xs → P x) → All P xs
  All-of_mem P [] f = tt
  All-of_mem P (x ∷ xs) f = (f x (Memᴰ.head refl), All-of_mem P xs (λ y m. f y (Memᴰ.tail m)))

  pub count_where_zero_All :
      (p : A → Bool) (xs : List A) → count_where p xs ≡ 0 → All (λ x. p x ≡ false) xs
  unfolding count_where
  count_where_zero_All p [] h = tt
  count_where_zero_All p (x ∷ xs) h = ground (arith, count_where_zero_All p xs)

  -- Of a row that alone passes a test, what holds of it holds of all that pass.
  pub All-unique {κ} :
      (P : A → Type κ) (p : A → Bool) (x : A) (xs : List A)
      → Memᴰ x xs
      → count_where p xs ≤ 1
      → p x ≡ true
      → P x
      → All (λ y. p y ≡ true → P y) xs
  unfolding count_where
  All-unique P p x [] m h q px = tt
  All-unique P p x (y ∷ ys) (Memᴰ.head e) h q px =
      let q' = subst (λ z. p z ≡ true) e q in
      let none_left : count_where p ys ≡ 0 = ground arith in
      (λ _. subst P e px, All-map _ _ (λ z f t. cc) ys (count_where_zero_All p ys none_left))
  All-unique P p x (y ∷ ys) (Memᴰ.tail m) h q px =
      let rest = All-unique P p x ys m (ground arith) q px in
      (
        λ t.
            let none_left : count_where p ys ≡ 0 = ground arith in
            cc (All-mem (λ z. p z ≡ false) ys m (count_where_zero_All p ys none_left)),
        rest,
      )

  -- To filter again changes nothing.
  pub filter_idem : (p : A → Bool) (xs : List A) → filter p (filter p xs) ≡ filter p xs
  unfolding filter
  filter_idem p [] = refl
  filter_idem p (x ∷ xs) = ground (arith, filter_idem p xs)

  pub find-mem : (p : A → Bool) (xs : List A) {x : A} → find p xs ≡ some x → Memᴰ x xs
  unfolding find
  find-mem p [] h = cc
  find-mem p (y ∷ ys) {x} h = split (p y) h (λ e. find-mem p ys e)
    where
      split :
          (b : Bool)
          → (if b then some y else find p ys) ≡ some x
          → (find p ys ≡ some x → Memᴰ x ys)
          → Memᴰ x (y ∷ ys)
      split true e rest = Memᴰ.head (cc)
      split false e rest = Memᴰ.tail (rest e)

  pub find-none-All : (p : A → Bool) (xs : List A) → find p xs ≡ none → All (λ x. p x ≡ false) xs
  unfolding find
  find-none-All p [] h = tt
  find-none-All p (x ∷ xs) h = ground (arith, find-none-All p xs)
