-- ===== src/Config.antt =====
-- config/: the settings of the four programs, from INI files.
pub mod Types
pub mod Values
pub mod Sections
pub mod Load
pub mod Unsigned
pub mod Origin
pub mod Bounds
pub mod WellFormed
pub mod Accepted
pub mod Summary
pub mod Secrecy
