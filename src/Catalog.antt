-- ===== src/Catalog.antt =====
-- The application catalog and the recorder of events: server/catalog.go, server/events.go and the
-- statements of server/db.go on the tables applications and app_sightings.
pub mod Applications
pub mod Sightings
pub mod Events
pub mod Record
pub mod Links
pub mod Deletion
pub mod Sending
