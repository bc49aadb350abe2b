-- ===== src/Agent/Entries.antt =====
-- Where an entry stands in the store of finished jobs.
use librawatch.Common.{
  ℕ, zero, suc, ◌+◌, ◌-◌, ◌≤◌, ◌<◌, text_eq, length, length-append, length-filter-le, drop, filter,
  filter-append, All, All-filter, All-append, Bool, true, false, ltb, lt→ltb, leb, List, [], ◌∷◌,
  ◌++◌, ◌≡◌, refl, ap, ◌∙◌, arith, Bool-cases, inl, inr,
}
use librawatch.Agent.Completed.{
  CompletedJob, completed_jobs_max, is_retained, insert_by_time, sort_by_time, keep_newest,
  prune_completed_jobs,
}

length-insert_by_time :
    (e : CompletedJob) (xs : List CompletedJob) → length (insert_by_time e xs) ≡ suc (length xs)
unfolding insert_by_time
length-insert_by_time e [] = refl
length-insert_by_time e (x ∷ xs) = ground (arith, length-insert_by_time e xs)

length-sort_by_time : (xs : List CompletedJob) → length (sort_by_time xs) ≡ length xs
unfolding sort_by_time
length-sort_by_time [] = refl
length-sort_by_time (x ∷ xs) =
    omega (arith, length-insert_by_time x (sort_by_time xs), length-sort_by_time xs)

-- Every entry is at most as new as `m`.
abbrev pub NoneAfter : ℕ → List CompletedJob → Type 0
NoneAfter m = All (λ e. e.at ≤ m)

All-drop {κ} :
    (P : CompletedJob → Type κ) (n : ℕ) (xs : List CompletedJob) → All P xs → All P (drop n xs)
All-drop P zero xs h = h
All-drop P (suc n) [] h = tt
All-drop P (suc n) (x ∷ xs) h = All-drop P n xs h.1

All-insert_by_time {κ} :
    (P : CompletedJob → Type κ) (e : CompletedJob) (xs : List CompletedJob)
    → P e
    → All P xs
    → All P (insert_by_time e xs)
unfolding insert_by_time
All-insert_by_time P e [] p h = (p, tt)
All-insert_by_time P e (x ∷ xs) p h = elim (Bool-cases (leb e.at x.at)) [
  | inl first ↦ rw first (p, h)
  | inr later ↦ rw later (h.0, All-insert_by_time P e xs p h.1)
]

All-sort_by_time {κ} :
    (P : CompletedJob → Type κ) (xs : List CompletedJob) → All P xs → All P (sort_by_time xs)
unfolding sort_by_time
All-sort_by_time P [] h = tt
All-sort_by_time P (x ∷ xs) h =
    All-insert_by_time P x (sort_by_time xs) h.0 (All-sort_by_time P xs h.1)

All-keep_newest {κ} :
    (P : CompletedJob → Type κ) (xs : List CompletedJob) → All P xs → All P (keep_newest xs)
unfolding keep_newest
All-keep_newest P xs h = elim (Bool-cases (ltb completed_jobs_max (length xs))) [
  | inl over ↦ rw over (All-drop P _ (sort_by_time xs) (All-sort_by_time P xs h))
  | inr fits ↦ rw fits h
]

pub All-prune_completed_jobs {κ} :
    (P : CompletedJob → Type κ) (now : ℕ) (xs : List CompletedJob)
    → All P xs
    → All P (prune_completed_jobs now xs)
unfolding prune_completed_jobs
All-prune_completed_jobs P now xs h =
    All-keep_newest P (filter (is_retained now) xs) (All-filter P (is_retained now) xs h)

-- An entry of another job, not newer than `m`, or not older.
abbrev pub Older : CompletedJob → CompletedJob → Type 0
Older m e = (e.at ≤ m.at) × (text_eq e.job_id m.job_id ≡ false)

abbrev pub Newer : CompletedJob → CompletedJob → Type 0
Newer m e = (m.at ≤ e.at) × (text_eq e.job_id m.job_id ≡ false)

insert_by_time-before :
    (e m : CompletedJob) (xs zs : List CompletedJob)
    → e.at ≤ m.at
    → insert_by_time e (xs ++ m ∷ zs) ≡ insert_by_time e xs ++ m ∷ zs
unfolding insert_by_time
insert_by_time-before e m [] zs h = ground arith
insert_by_time-before e m (x ∷ xs) zs h = ground (arith, insert_by_time-before e m xs zs h)

insert_by_time-first :
    (m : CompletedJob) (zs : List CompletedJob) → All (Newer m) zs → insert_by_time m zs ≡ m ∷ zs
unfolding insert_by_time
insert_by_time-first m [] h = refl
insert_by_time-first m (z ∷ zs) h = ground arith

-- Sorting keeps the entry behind the older ones and before the newer ones.
sort_by_time-around :
    (m : CompletedJob) (ys zs : List CompletedJob)
    → All (Older m) ys
    → All (Newer m) zs
    → sort_by_time (ys ++ m ∷ zs) ≡ sort_by_time ys ++ m ∷ sort_by_time zs
unfolding sort_by_time
sort_by_time-around m [] zs h g =
    insert_by_time-first m (sort_by_time zs) (All-sort_by_time (Newer m) zs g)
sort_by_time-around m (y ∷ ys) zs h g =
    ap (insert_by_time y) (sort_by_time-around m ys zs h.1 g)
    ∙ insert_by_time-before y m (sort_by_time ys) (sort_by_time zs) h.0.0

drop-around :
    (n : ℕ) (m : CompletedJob) (ys zs : List CompletedJob)
    → n ≤ length ys
    → drop n (ys ++ m ∷ zs) ≡ drop n ys ++ m ∷ zs
drop-around zero m ys zs h = refl
drop-around (suc n) m [] zs h = elim h [ ]
drop-around (suc n) m (y ∷ ys) zs h = drop-around n m ys zs (omega arith)

-- The store has the entry, with older ones of other jobs before it and at most `c` newer ones of
-- other jobs behind it.
pub record Holds (m : CompletedJob) (c : ℕ) (store : List CompletedJob) : Type 0 where
  pub before : List CompletedJob
  pub behind : List CompletedJob
  pub whole : store ≡ before ++ m ∷ behind
  pub older : All (Older m) before
  pub newer : All (Newer m) behind
  pub few : length behind ≤ c

keep_newest-Holds :
    (m : CompletedJob) (c : ℕ) (store : List CompletedJob)
    → c < 256
    → Holds m c store
    → Holds m c (keep_newest store)
unfolding keep_newest
keep_newest-Holds m c store h s = elim (Bool-cases (ltb 256 (length store))) [
  | inr fits ↦ rw fits s
  | inl over ↦
      let k = length store - 256 in
      rw over (record {
        before = drop k (sort_by_time s.before);
        behind = sort_by_time s.behind;
        whole =
            ap (λ xs. drop k (sort_by_time xs)) s.whole
            ∙ ap (drop k) (sort_by_time-around m s.before s.behind s.older s.newer)
            ∙ drop-around k m (sort_by_time s.before) (sort_by_time s.behind) (
                omega (
                  arith,
                  ap length s.whole,
                  length-append s.before (m ∷ s.behind),
                  length-sort_by_time s.before,
                  s.few,
                  h,
                ));
        older =
            All-drop (Older m) k (sort_by_time s.before)
              (All-sort_by_time (Older m) s.before s.older);
        newer = All-sort_by_time (Newer m) s.behind s.newer;
        few = omega (arith, length-sort_by_time s.behind, s.few);
      })
]

pub filter-Holds :
    (p : CompletedJob → Bool) (m : CompletedJob) (c : ℕ) (store : List CompletedJob)
    → p m ≡ true
    → Holds m c store
    → Holds m c (filter p store)
filter-Holds p m c store kept s = record {
  before = filter p s.before;
  behind = filter p s.behind;
  whole =
      ap (filter p) s.whole
      ∙ filter-append p s.before (m ∷ s.behind)
      ∙ ap (λ xs. filter p s.before ++ xs) first_kept;
  older = All-filter (Older m) p s.before s.older;
  newer = All-filter (Newer m) p s.behind s.newer;
  few = omega (arith, length-filter-le p s.behind, s.few);
}
  where
    first_kept : filter p (m ∷ s.behind) ≡ m ∷ filter p s.behind
    first_kept = unfold filter in rw kept

pub prune-Holds :
    (now : ℕ) (m : CompletedJob) (c : ℕ) (store : List CompletedJob)
    → now - m.at < 86400
    → c < 256
    → Holds m c store
    → Holds m c (prune_completed_jobs now store)
unfolding prune_completed_jobs
prune-Holds now m c store fresh h s =
    keep_newest-Holds m c _ h
      (filter-Holds (is_retained now) m c store (unfold is_retained in lt→ltb _ _ fresh) s)

pub append-Holds :
    (m n : CompletedJob) (c : ℕ) (store : List CompletedJob)
    → Newer m n
    → Holds m c store
    → Holds m (c + 1) (store ++ n ∷ [])
append-Holds m n c store o s = record {
  before = s.before;
  behind = s.behind ++ n ∷ [];
  whole = ap (λ xs. xs ++ n ∷ []) s.whole ∙ assoc s.before;
  older = s.older;
  newer = All-append (Newer m) s.behind (n ∷ []) s.newer (o, tt);
  few = omega (arith, length-append s.behind (n ∷ []), s.few);
}
  where
    assoc :
        (ys : List CompletedJob) → (ys ++ m ∷ s.behind) ++ n ∷ [] ≡ ys ++ m ∷ (s.behind ++ n ∷ [])
    assoc [] = refl
    assoc (y ∷ ys) = ap (λ xs. y ∷ xs) (assoc ys)
