-- ===== src/Store.antt =====
-- coordinator/store.py: the SQLite registries of the coordinator. `Rows` has the tables, and one
-- module below has the methods of each table.
pub mod Rows
pub mod Orgs
pub mod Challenges
pub mod Tokens
pub mod Contributions
pub mod Rounds
pub mod Models
