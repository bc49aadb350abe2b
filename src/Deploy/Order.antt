-- ===== src/Deploy/Order.antt =====
-- The order in which AcquireNextJob takes the candidates.
use mathlib.Core.List.{Memᴰ}
use mathlib.Core.Option.{some-injective}
use librawatch.Common.{
  subst, true, false, Option, none, some, List, [], ◌∷◌, All, ◌≡◌, refl, sym, inl, inr, arith,
  Bool-cases,
}
use librawatch.Deploy.Model.{Job}
use librawatch.Deploy.Claim.{Candidate, precedes, better, first}

precedes_trans : (i j k : Job) → precedes i j ≡ false → precedes j k ≡ false → precedes i k ≡ false
unfolding precedes
precedes_trans i j k h g = ground arith

precedes_asym : (i j : Job) → precedes i j ≡ true → precedes j i ≡ false
unfolding precedes
precedes_asym i j h = ground arith

precedes_irrefl : (i : Job) → precedes i i ≡ false
unfolding precedes
precedes_irrefl i = ground arith

-- No job of the candidates comes before `j`.
abbrev pub IsFirst : Job → List Candidate → Type 0
IsFirst j = All (λ c. precedes c.job j ≡ false)

IsFirst-mono :
    (i j : Job) (cs : List Candidate) → precedes i j ≡ false → IsFirst i cs → IsFirst j cs
IsFirst-mono i j [] h all = tt
IsFirst-mono i j (c ∷ cs) h all = (precedes_trans c.job i j all.0 h, IsFirst-mono i j cs h all.1)

first-none : (j : Job) (cs : List Candidate) → first cs ≡ none → IsFirst j cs
unfolding first
first-none j [] h = tt
first-none j (c ∷ cs) h = cc

better-after : (d c : Candidate) → precedes c.job d.job ≡ true → better d (some c) ≡ c
unfolding better
better-after d c h = rw h

better-before : (d c : Candidate) → precedes c.job d.job ≡ false → better d (some c) ≡ d
unfolding better
better-before d c h = rw h

better-IsFirst :
    (d : Candidate) (cs : List Candidate) (o : Option Candidate)
    → first cs ≡ o
    → ((e : Candidate) → o ≡ some e → Memᴰ e cs × IsFirst e.job cs)
    → Memᴰ (better d o) (d ∷ cs) × IsFirst (better d o).job (d ∷ cs)
better-IsFirst d cs none e ih =
    subst (λ x. Memᴰ x (d ∷ cs) × IsFirst x.job (d ∷ cs)) (better-none d)
      (Memᴰ.head refl, (precedes_irrefl d.job, first-none d.job cs e))
  where
    better-none : (x : Candidate) → x ≡ better x none
    better-none x = unfold better in refl
better-IsFirst d cs (some c) e ih = elim (Bool-cases (precedes c.job d.job)) [
  | inl after ↦
      subst (λ x. Memᴰ x (d ∷ cs) × IsFirst x.job (d ∷ cs)) (sym (better-after d c after))
        (Memᴰ.tail (ih c refl).0, (precedes_asym c.job d.job after, (ih c refl).1))
  | inr before ↦
      subst (λ x. Memᴰ x (d ∷ cs) × IsFirst x.job (d ∷ cs)) (sym (better-before d c before))
        (Memᴰ.head refl, (precedes_irrefl d.job, IsFirst-mono c.job d.job cs before (ih c refl).1))
]

pub first-IsFirst :
    (cs : List Candidate) (c : Candidate) → first cs ≡ some c → Memᴰ c cs × IsFirst c.job cs
unfolding first
first-IsFirst [] c h = cc
first-IsFirst (d ∷ cs) c h =
    subst (λ e. Memᴰ e (d ∷ cs) × IsFirst e.job (d ∷ cs)) (some-injective _ _ h)
      (better-IsFirst d cs (first cs) refl (first-IsFirst cs))
