-- ===== src/Persistence.antt =====
-- backend/app/services/persistence_service.py: what a crawl found is saved in one transaction.
mod Rows
pub mod Records
pub mod Comparables
pub mod Writes
pub mod Brokers
pub mod Apartments
pub mod Groups
pub mod Saving
pub mod Absences
pub mod Persist
pub mod Kept
pub mod Committed
pub mod Effects
pub mod Samples
mod Tests
pub use Rows.*
