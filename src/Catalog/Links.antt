-- ===== src/Catalog/Links.antt =====
-- A path of an agent is linked to one application, for good.
use librawatch.Common.{
  ℕ, ◌≤◌, Text, text_eq, text_eq_iff, Bool, true, ◌&&◌, ◌||◌, if_rule, Option, none, some, List, [],
  ◌∷◌, ◌++◌, any, find, map_where, count_where, count_where-append, ◌≡◌, refl, ◌∙◌, arith,
  Bool-cases, inl, inr,
}
use librawatch.Catalog.Applications.{Sighting, CatalogDb, upsert_application, write_application}
use librawatch.Catalog.Sightings.{
  SeenProcess, is_at, application_of, get_sighting_application_id, is_sighting, seen_again,
  new_sighting, upsert_sighting, sight, identify, observe_one, observe_each, observe, Batch,
  observe_batches,
}

module _ (a path : Text) where
  count-seen_again :
      (now : ℕ) (q : Sighting → Bool) (p : SeenProcess) (ss : List Sighting)
      → count_where (is_at a path) (map_where q (seen_again now p) ss)
        ≡ count_where (is_at a path) ss
  unfolding count_where map_where seen_again is_at
  count-seen_again now q p [] = refl
  count-seen_again now q p (s ∷ ss) = ground (arith, count-seen_again now q p ss)

  find-seen_again :
      (now : ℕ) (q : Sighting → Bool) (p : SeenProcess) (ss : List Sighting)
      → application_of (find (is_at a path) (map_where q (seen_again now p) ss))
        ≡ application_of (find (is_at a path) ss)
  unfolding find map_where seen_again is_at
  find-seen_again now q p [] = refl
  find-seen_again now q p (s ∷ ss) = ground (arith, find-seen_again now q p ss)

  find-appended :
      (new : Sighting) (ss : List Sighting) (k : ℕ)
      → application_of (find (is_at a path) ss) ≡ some k
      → application_of (find (is_at a path) (ss ++ new ∷ [])) ≡ some k
  unfolding find
  find-appended new [] k h = cc
  find-appended new (s ∷ ss) k h = ground (arith, find-appended new ss k)

  -- A path that has a link keeps it.
  upsert_sighting-linked :
      (now : ℕ) (agent : Text) (id k : ℕ) (p : SeenProcess) (db : CatalogDb)
      → get_sighting_application_id a path db ≡ some k
      → get_sighting_application_id a path (upsert_sighting now agent id p db) ≡ some k
  unfolding get_sighting_application_id upsert_sighting
  upsert_sighting-linked now agent id k p db h =
      if_rule {A = List Sighting} (λ ss. application_of (find (is_at a path) ss) ≡ some k)
        (any (is_sighting agent id p.path) db.sightings) _ _
        (λ _. find-seen_again now (is_sighting agent id p.path) p db.sightings ∙ h)
        (λ _. find-appended (new_sighting now agent id p) db.sightings k h)

  abbrev links : CatalogDb → ℕ
  links db = count_where (is_at a path) db.sightings

  same_path :
      (agent path' : Text) (ss : List Sighting)
      → application_of (find (is_at agent path') ss) ≡ none
      → text_eq agent a && text_eq path' path ≡ true
      → count_where (is_at a path) ss ≡ 0
  unfolding find count_where is_at
  same_path agent path' [] h e = refl
  same_path agent path' (s ∷ ss) h e =
      ground (arith, same_path agent path' ss, text_eq_iff agent a, text_eq_iff path' path)

  found_sighting :
      (agent path' : Text) (id : ℕ) (ss : List Sighting)
      → application_of (find (is_at agent path') ss) ≡ some id
      → any (is_sighting agent id path') ss ≡ true
  unfolding find any is_sighting
  found_sighting agent path' id [] h = cc
  found_sighting agent path' id (s ∷ ss) h = ground (arith, found_sighting agent path' id ss)

  sightings-upsert_application :
      (now : ℕ) (p : SeenProcess) (db : CatalogDb)
      → (upsert_application now p.name p.company p.metadata db).0.sightings ≡ db.sightings
  unfolding upsert_application write_application
  sightings-upsert_application now p db = ground arith

  known-links :
      (now : ℕ) (agent : Text) (id : ℕ) (p : SeenProcess) (db : CatalogDb)
      → any (is_sighting agent id p.path) db.sightings ≡ true
      → links (upsert_sighting now agent id p db) ≡ links db
  unfolding upsert_sighting
  known-links now agent id p db h =
      rw h (count-seen_again now (is_sighting agent id p.path) p db.sightings)

  -- A path of the agent that has no link gets one.
  new-links :
      (now : ℕ) (agent : Text) (id : ℕ) (p : SeenProcess) (db : CatalogDb)
      → get_sighting_application_id agent p.path db ≡ none
      → links db ≤ 1
      → links (upsert_sighting now agent id p db) ≤ 1
  unfolding get_sighting_application_id
  new-links now agent id p db h le =
      elim (Bool-cases (any (is_sighting agent id p.path) db.sightings)) [
        | inl known ↦ omega (arith, known-links now agent id p db known)
        | inr fresh ↦ unfold upsert_sighting in rw fresh appended
      ]
    where
      appended : count_where (is_at a path) (db.sightings ++ new_sighting now agent id p ∷ []) ≤ 1
      appended =
          unfold count_where is_at in
          ground (
            arith,
            count_where-append (is_at a path) db.sightings (new_sighting now agent id p ∷ []),
            same_path agent p.path db.sightings h,
          )

  -- At most one link, and the one that there is.
  abbrev pub IsLinked : Option ℕ → CatalogDb → Type 0
  IsLinked none db = links db ≤ 1
  IsLinked (some k) db = (links db ≤ 1) × (get_sighting_application_id a path db ≡ some k)

  sight-new-IsLinked :
      (now : ℕ) (agent : Text) (p : SeenProcess) (l : Option ℕ) (r : CatalogDb × Option ℕ)
      → get_sighting_application_id agent p.path r.0 ≡ none
      → IsLinked l r.0
      → IsLinked l (sight now agent p r)
  unfolding sight
  sight-new-IsLinked now agent p l (db, none) h v = v
  sight-new-IsLinked now agent p none (db, some id) h v = new-links now agent id p db h v
  sight-new-IsLinked now agent p (some k) (db, some id) h v =
      (new-links now agent id p db h v.0, upsert_sighting-linked now agent id k p db v.1)

  sight-known-IsLinked :
      (now : ℕ) (agent : Text) (p : SeenProcess) (l : Option ℕ) (db : CatalogDb) (id : ℕ)
      → get_sighting_application_id agent p.path db ≡ some id
      → IsLinked l db
      → IsLinked l (upsert_sighting now agent id p db)
  sight-known-IsLinked now agent p none db id h v =
      let known =
        found_sighting agent p.path id db.sightings (unfold get_sighting_application_id in h) in
      omega (arith, known-links now agent id p db known)
  sight-known-IsLinked now agent p (some k) db id h v =
      let known =
        found_sighting agent p.path id db.sightings (unfold get_sighting_application_id in h) in
      (
        omega (arith, known-links now agent id p db known),
        upsert_sighting-linked now agent id k p db v.1,
      )

  same_sightings :
      (l : Option ℕ) (db db' : CatalogDb)
      → db'.sightings ≡ db.sightings
      → IsLinked l db
      → IsLinked l db'
  same_sightings none db db' e v = rw e v
  same_sightings (some k) db db' e v = (rw e v.0, (unfold get_sighting_application_id in rw e v.1))

  observe_one-IsLinked :
      (now : ℕ) (agent : Text) (p : SeenProcess) (l : Option ℕ) (db : CatalogDb)
      → IsLinked l db
      → IsLinked l (observe_one now agent p db)
  unfolding observe_one
  observe_one-IsLinked now agent p l db v = split (get_sighting_application_id agent p.path db) refl
    where
      split :
          (o : Option ℕ)
          → get_sighting_application_id agent p.path db ≡ o
          → IsLinked l (sight now agent p (identify now p db o))
      split (some id) e = unfold identify sight in sight-known-IsLinked now agent p l db id e v
      split none e =
          unfold identify in
          sight-new-IsLinked now agent p l (upsert_application now p.name p.company p.metadata db)
            (unfold get_sighting_application_id in rw (sightings-upsert_application now p db) e)
            (same_sightings l db _ (sightings-upsert_application now p db) v)

  observe_each-IsLinked :
      (now : ℕ) (agent : Text) (seen : List Text) (procs : List SeenProcess) (l : Option ℕ)
      (db : CatalogDb)
      → IsLinked l db
      → IsLinked l (observe_each now agent seen procs db)
  unfolding observe_each
  observe_each-IsLinked now agent seen [] l db v = v
  observe_each-IsLinked now agent seen (p ∷ procs) l db v =
      if_rule (IsLinked l) (text_eq p.path [] || any (text_eq p.path) seen)
        (observe_each now agent seen procs db)
        (observe_each now agent (p.path ∷ seen) procs (observe_one now agent p db))
        (λ _. observe_each-IsLinked now agent seen procs l db v)
        (λ _.
          observe_each-IsLinked now agent (p.path ∷ seen) procs l (observe_one now agent p db)
            (observe_one-IsLinked now agent p l db v))

  -- Through any batches of processes, with or without metadata, a path of an agent is linked to at
  -- most one application, and once it is linked it stays linked to that one.
  pub observe_batches-IsLinked :
      (bs : List Batch) (l : Option ℕ) (db : CatalogDb)
      → IsLinked l db
      → IsLinked l (observe_batches bs db)
  unfolding observe_batches observe
  observe_batches-IsLinked [] l db v = v
  observe_batches-IsLinked (b ∷ bs) l db v =
      observe_batches-IsLinked bs l (observe b.now b.agent b.procs db)
        (observe_each-IsLinked b.now b.agent [] b.procs l db v)
