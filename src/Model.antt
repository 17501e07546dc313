-- ===== src/Model.antt =====
-- The data model of app/models: enums, rows, the settings, and the database that holds the tables.
-- An id is a random string that is only ever compared: a number. A datetime is a number of
-- microseconds, since every value that the code compares has been read as UTC.
mod Enums
mod Rows
mod Config
pub use Enums.*
pub use Rows.*
pub use Config.*
