-- ===== src/Catalog/Sightings.antt =====
-- The table app_sightings of server/db.go, and Catalog.Observe of server/catalog.go, which is called
-- for an agent that handleMetrics has just put into the table agents.
use librawatch.Common.{
  ℕ, ◌+◌, Text, text_eq, Bool, ◌&&◌, ◌||◌, ◌==◌, ltb, if◌then◌else◌, Option, none, some, List, [],
  ◌∷◌, ◌++◌, any, find, map_where,
}
use librawatch.Catalog.Applications.{
  Sighting, CatalogDb, AppMetadata, unless_blank, upsert_application,
}

-- What the catalog reads of a process; the times are written as the table holds them, empty for
-- those that parseDBTime does not read.
pub record SeenProcess : Type 0 where
  pub name : Text
  pub company : Text
  pub path : Text
  pub size : ℕ
  pub metadata : AppMetadata
  pub file_created_at : Text
  pub file_modified_at : Text

-- agent_id = ? AND path = ?
unfoldable pub is_at : Text → Text → Sighting → Bool
is_at agent path s = text_eq s.agent_id agent && text_eq s.path path

abbrev pub application_of : Option Sighting → Option ℕ
application_of none = none
application_of (some s) = some s.application_id

unfoldable pub get_sighting_application_id : Text → Text → CatalogDb → Option ℕ
unfolding is_at
get_sighting_application_id agent path db = application_of (find (is_at agent path) db.sightings)

-- The primary key.
unfoldable pub is_sighting : Text → ℕ → Text → Sighting → Bool
unfolding is_at
is_sighting agent id path s = is_at agent path s && (s.application_id == id)

unfoldable pub seen_again : ℕ → SeenProcess → Sighting → Sighting
unfolding unless_blank
seen_again now p s = record s {
  last_seen = now;
  exec_count = s.exec_count + 1;
  size = if ltb 0 p.size then p.size else s.size;
  file_created_at = unless_blank p.file_created_at s.file_created_at;
  file_modified_at = unless_blank p.file_modified_at s.file_modified_at;
}

abbrev pub new_sighting : ℕ → Text → ℕ → SeenProcess → Sighting
new_sighting now agent id p = record {
  agent_id = agent;
  application_id = id;
  path = p.path;
  size = p.size;
  file_created_at = p.file_created_at;
  file_modified_at = p.file_modified_at;
  first_seen = now;
  last_seen = now;
  exec_count = 1;
}

unfoldable pub upsert_sighting : ℕ → Text → ℕ → SeenProcess → CatalogDb → CatalogDb
unfolding is_sighting seen_again
upsert_sighting now agent id p db = record db {
  sightings =
      if any (is_sighting agent id p.path) db.sightings
      then map_where (is_sighting agent id p.path) (seen_again now p) db.sightings
      else db.sightings ++ new_sighting now agent id p ∷ [];
}

-- No id is the error of a query, after which nothing is recorded.
unfoldable pub sight : ℕ → Text → SeenProcess → CatalogDb × Option ℕ → CatalogDb
unfolding upsert_sighting
sight now agent p (db, none) = db
sight now agent p (db, some id) = upsert_sighting now agent id p db

unfoldable pub identify : ℕ → SeenProcess → CatalogDb → Option ℕ → CatalogDb × Option ℕ
unfolding upsert_application
identify now p db (some id) = (db, some id)
identify now p db none = upsert_application now p.name p.company p.metadata db

unfoldable pub observe_one : ℕ → Text → SeenProcess → CatalogDb → CatalogDb
unfolding sight identify get_sighting_application_id
observe_one now agent p db =
    sight now agent p (identify now p db (get_sighting_application_id agent p.path db))

-- The loop of Observe: a path is looked at once in a batch, and an empty one never.
unfoldable pub observe_each : ℕ → Text → List Text → List SeenProcess → CatalogDb → CatalogDb
unfolding observe_one text_eq any
observe_each now agent seen [] db = db
observe_each now agent seen (p ∷ procs) db =
    let skipped = observe_each now agent seen procs db in
    let looked = observe_each now agent (p.path ∷ seen) procs (observe_one now agent p db) in
    if text_eq p.path [] || any (text_eq p.path) seen then skipped else looked

unfoldable pub observe : ℕ → Text → List SeenProcess → CatalogDb → CatalogDb
unfolding observe_each
observe now agent procs db = observe_each now agent [] procs db

-- A batch of an agent and the time at which it comes.
pub record Batch : Type 0 where
  pub now : ℕ
  pub agent : Text
  pub procs : List SeenProcess

unfoldable pub observe_batches : List Batch → CatalogDb → CatalogDb
unfolding observe
observe_batches [] db = db
observe_batches (b ∷ bs) db = observe_batches bs (observe b.now b.agent b.procs db)
