-- ===== src/Store.antt =====
-- The data layer over PostgreSQL: backend/internal/store.
-- A table is the list of its rows, in the order of insertion, and each method of `Store` is an
-- action on the database. Each SQL statement is one function on the tables.
pub mod Tables
pub mod Monad
pub mod Runs
pub mod Wheels
pub mod Segments
pub mod Accounts
pub mod Sessions
pub mod Audit
pub mod Product
pub mod Shelf
pub mod Spins
pub mod Images
pub mod Migrations
mod Tests
