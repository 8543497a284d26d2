-- ===== src/Classes/Repositories.antt =====
-- repositories/: the repositories over the tables of the database client, one module for each file.
pub mod Classes
pub mod Members
pub mod Paging
pub mod Servants
pub mod Users
mod Tests
