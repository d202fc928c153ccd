-- ===== src/Db.antt =====
-- The statements of internal/db, each a call of the driver on the tables of the World.
pub mod Webhooks
pub mod SoftDelete
pub mod Changes
pub mod Details
pub mod Paging
pub mod Listings
pub mod ImageList
pub mod Suppressions
pub mod Targets
pub mod Registries
pub mod Reads
pub mod Scans
pub mod Others
pub mod Images
pub mod Active
pub mod Persist
