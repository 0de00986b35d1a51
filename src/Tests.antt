-- ===== src/Tests.antt =====
-- Runs of the models on concrete input, and the theorems at inputs that meet their hypotheses.
pub mod Words
pub mod Interface
pub mod Urbs
pub mod Controller
pub mod Background
pub mod Sessions
pub mod Examples
pub mod Clients
pub mod Lifetimes
pub mod Loops
pub mod Ownership
pub mod Endurance
pub mod Starting
