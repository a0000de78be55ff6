-- ===== src/Domain.antt =====
-- The package domain: enumerations, the two state machines, canonicalisation and field checks.
pub mod Enums
pub mod Errors
pub mod StateMachine
pub mod ValueObjects
