-- ===== src/Examples.antt =====
-- Functions that stand for the libraries which the program calls, and the theorems at concrete values.
mod Base64
mod Members
mod Libraries
mod Contents
mod Interleaving
mod Accounts
mod Messages
mod Settings
mod Texts
mod Gateway
mod Registrar
mod Programs
mod Sessions
mod Urls
