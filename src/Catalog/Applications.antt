-- ===== src/Catalog/Applications.antt =====
-- The table applications of server/db.go. A row that was not given a hash has none.
use librawatch.Common.{
  ℕ, ◌+◌, Text, codes, text_eq, equal_fold, Bool, not, ◌&&◌, ◌==◌, if◌then◌else◌, Option, none,
  some, List, [], ◌∷◌, ◌++◌, any, find, map_where,
}

pub record AppRow : Type 0 where
  pub id : ℕ
  pub exe_name : Text
  pub company : Text
  pub product_name : Text
  pub description : Text
  pub product_version : Text
  pub status : Text
  pub sha256 : Option Text
  pub created_at : ℕ
  pub updated_at : ℕ

pub record Sighting : Type 0 where
  pub agent_id : Text
  pub application_id : ℕ
  pub path : Text
  pub size : ℕ
  pub file_created_at : Text
  pub file_modified_at : Text
  pub first_seen : ℕ
  pub last_seen : ℕ
  pub exec_count : ℕ

-- `next_id` is the key that AUTOINCREMENT gives next.
pub record CatalogDb : Type 0 where
  pub applications : List AppRow
  pub next_id : ℕ
  pub sightings : List Sighting

-- AppMetadata; nil is the metadata of empty texts.
pub record AppMetadata : Type 0 where
  pub product_name : Text
  pub description : Text
  pub product_version : Text
  pub sha256 : Text

-- CASE WHEN new <> '' THEN new ELSE old END
unfoldable pub unless_blank : Text → Text → Text
unfolding text_eq
unless_blank new old = if text_eq new [] then old else new

abbrev pub hash_unless_blank : Text → Option Text → Option Text
hash_unless_blank new old = if text_eq new [] then old else some new

-- exe_name = ? AND company = ?
unfoldable pub has_identity : Text → Text → AppRow → Bool
has_identity exe company r = text_eq r.exe_name exe && text_eq r.company company

unfoldable pub refreshed_app : ℕ → AppMetadata → AppRow → AppRow
unfolding unless_blank
refreshed_app now m r = record r {
  product_name = unless_blank m.product_name r.product_name;
  description = unless_blank m.description r.description;
  product_version = unless_blank m.product_version r.product_version;
  sha256 = hash_unless_blank m.sha256 r.sha256;
  updated_at = now;
}

abbrev pub insert_app : AppRow → CatalogDb → CatalogDb
insert_app r db = record db { applications = db.applications ++ r ∷ []; next_id = db.next_id + 1 }

abbrev pub id_of : Option AppRow → Option ℕ
id_of none = none
id_of (some r) = some r.id

-- The unique index leaves out the rows with an empty exe_name.
unfoldable pub write_application : ℕ → Text → Text → AppMetadata → CatalogDb → CatalogDb
unfolding has_identity refreshed_app text_eq
write_application now exe company m db =
    if not (text_eq exe []) && any (has_identity exe company) db.applications
    then record db {
      applications = map_where (has_identity exe company) (refreshed_app now m) db.applications;
    }
    else insert_app
        (record {
          id = db.next_id;
          exe_name = exe;
          company = company;
          product_name = m.product_name;
          description = m.description;
          product_version = m.product_version;
          status = codes "pending_review";
          sha256 = some m.sha256;
          created_at = now;
          updated_at = now;
        })
        db

-- The tables, and the id that the query finds: of several rows the first.
unfoldable pub upsert_application : ℕ → Text → Text → AppMetadata → CatalogDb → CatalogDb × Option ℕ
unfolding write_application
upsert_application now exe company m db =
    let db' = write_application now exe company m db in
    (db', id_of (find (has_identity exe company) db'.applications))

-- COLLATE NOCASE folds ASCII.
unfoldable pub has_product : Text → Text → AppRow → Bool
has_product product company r = equal_fold r.product_name product && equal_fold r.company company

unfoldable pub update_or_insert_product :
    ℕ → Text → Text → AppMetadata → CatalogDb → Option ℕ → CatalogDb
unfolding unless_blank
update_or_insert_product now product company m db none =
    insert_app
      (record {
        id = db.next_id;
        exe_name = [];
        company = company;
        product_name = product;
        description = m.description;
        product_version = m.product_version;
        status = codes "pending_review";
        sha256 = none;
        created_at = now;
        updated_at = now;
      })
      db
update_or_insert_product now product company m db (some id) = record db {
  applications =
      map_where (λ r. r.id == id)
        (λ r. record r {
          description = unless_blank m.description r.description;
          product_version = unless_blank m.product_version r.product_version;
          updated_at = now;
        })
        db.applications;
}

unfoldable pub upsert_application_by_product : ℕ → Text → Text → AppMetadata → CatalogDb → CatalogDb
unfolding has_product update_or_insert_product
upsert_application_by_product now product company m db =
    update_or_insert_product now product company m db
      (id_of (find (has_product product company) db.applications))
