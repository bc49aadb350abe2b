-- ===== src/Tests/Catalog.antt =====
-- The theorems on the catalog and the events at a concrete agent.
use librawatch.Common.{
  Text, codes, ℕ, find, map_where, arith, count_where, none, some, [], ◌∷◌, ◌≡◌, refl, length,
}
use librawatch.Common.{text_eq, if◌then◌else◌, true}
use librawatch.Common.Int.{pos}
use librawatch.Policy.Match.{Rule}
use librawatch.Policy.Server.{Engine}
use librawatch.Deploy.Dispatch.{Server}
use librawatch.Catalog.Events.{Recorder}
use librawatch.Catalog.Record.{is_registered, Arrival, handle_event, handle_events}
use librawatch.Catalog.Deletion.{
  IsBalanced, is_deleted, deletions_recorded, handle_events-IsBalanced,
}
use librawatch.Catalog.Sending.{Sends, handle_event-Sends}
use librawatch.Catalog.Applications.{AppMetadata, CatalogDb}
use librawatch.Catalog.Sightings.{SeenProcess, Batch, get_sighting_application_id, observe_batches}
use librawatch.Catalog.Links.{IsLinked, observe_batches-IsLinked}

abbrev chrome : Text
chrome = codes "C:\\Google\\chrome.exe"

abbrev without_metadata : AppMetadata
without_metadata = record { product_name = []; description = []; product_version = []; sha256 = [] }

abbrev seen_with : Text → SeenProcess
seen_with company = record {
  name = codes "chrome.exe";
  company = company;
  path = chrome;
  size = 0;
  metadata = without_metadata;
  file_created_at = [];
  file_modified_at = [];
}

-- The company comes with the first batch only.
abbrev batch : ℕ → Text → Batch
batch now company = record {
  now = now;
  agent = codes "pc-1";
  procs = seen_with company ∷ seen_with [] ∷ [];
}

abbrev empty_catalog : CatalogDb
empty_catalog = record { applications = []; next_id = 1; sightings = [] }

abbrev first_catalog : CatalogDb
first_catalog = observe_batches (batch 5 (codes "Google LLC") ∷ []) empty_catalog

first_link : IsLinked (codes "pc-1") chrome (some 1) first_catalog
unfolding find
first_link = (
  observe_batches-IsLinked (codes "pc-1") chrome (batch 5 (codes "Google LLC") ∷ []) none
      empty_catalog (no_link),
  (unfold get_sighting_application_id observe_batches in refl),
)
  where
    no_link : IsLinked (codes "pc-1") chrome none empty_catalog
    no_link = unfold count_where in omega arith

observe_batches-IsLinked_example :
    IsLinked
      (codes "pc-1")
      chrome
      (some 1)
      (observe_batches (batch 6 [] ∷ batch 7 [] ∷ []) first_catalog)
observe_batches-IsLinked_example =
    observe_batches-IsLinked (codes "pc-1") chrome (batch 6 [] ∷ batch 7 [] ∷ []) (some 1)
      first_catalog first_link

one_application_test :
    length (observe_batches (batch 6 [] ∷ batch 7 [] ∷ []) first_catalog).applications ≡ 1
unfolding observe_batches find map_where
one_application_test = refl

abbrev delete_downloads : Rule
delete_downloads = record {
  id = pos 1;
  name = [];
  event_type = codes "download_created";
  category_id = none;
  app_status = [];
  file_extension = codes "exe";
  execution_location = [];
  device_group = [];
  action = codes "delete";
  enabled = true;
  created_at = 0;
}

abbrev engine : Engine
engine = record {
  applications = [];
  policy_rules = delete_downloads ∷ [];
  device_group = λ a. [];
  policy_version = 1;
  relevant_apps_cache = none;
  relevant_apps_at = 0;
}

abbrev server : Server
server = record {
  db = record { jobs = []; results = [] };
  agents = codes "pc-1" ∷ [];
  clients = record { agent_id = codes "pc-1"; send = [] } ∷ [];
  notified = [];
  lease_minutes = 5;
  file_checksum = λ f. none;
}

abbrev recorder : Recorder
recorder = record {
  server = server;
  engine = engine;
  catalog = empty_catalog;
  alerter = none;
  events = [];
  notified = [];
}

abbrev downloaded : Text → Text
downloaded key =
    if text_eq key (codes "extension")
    then codes "EXE"
    else if text_eq key (codes "path")
    then codes "C:\\Downloads\\a.exe"
    else []

abbrev download : Arrival
download = record {
  now = 9;
  clock = [];
  event = record {
    agent_id = codes "pc-1";
    hostname = codes "LAB-1";
    type = codes "download_created";
    metadata = record { text_at = λ key. some (downloaded key); json = codes "{}" };
  };
}

abbrev unplugged : Arrival
unplugged = record {
  now = 10;
  clock = codes "08:00";
  event = record {
    agent_id = codes "pc-1";
    hostname = codes "LAB-1";
    type = codes "peripheral_removed";
    metadata = record { text_at = λ key. none; json = codes "{}" };
  };
}

handle_events-IsBalanced_example :
    IsBalanced recorder (handle_events (download ∷ unplugged ∷ download ∷ []) recorder)
handle_events-IsBalanced_example =
    handle_events-IsBalanced (download ∷ unplugged ∷ download ∷ []) recorder
      (known, (known, (known, tt)))
  where
    known : is_registered (codes "pc-1") recorder ≡ true
    known = unfold is_registered in refl

deleted_test :
    deletions_recorded (handle_events (download ∷ unplugged ∷ download ∷ []) recorder) ≡ 2
unfolding handle_events count_where is_deleted
deleted_test = refl

handle_event-Sends_example : Sends download.event recorder (handle_event download recorder).server
handle_event-Sends_example = handle_event-Sends download recorder
