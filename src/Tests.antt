-- ===== src/Tests.antt =====
-- Runs of the definitions on small inputs, and the theorems at concrete ones.
pub mod Tables
pub mod Code
pub mod Upvalues
pub mod Programs
pub mod Garbage
pub mod Runs
pub mod Listings
pub mod Bases
pub mod Reached
pub mod Recovery
pub mod Caches
