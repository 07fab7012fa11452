-- ===== src/Repository.antt =====
-- repository/: the SQL that the services send and how its replies are read.
pub mod Users
pub mod Files
