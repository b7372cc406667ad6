-- ===== src/Domain.antt =====
-- The pure package internal/domain: entities, cadence arithmetic and the transition rules.
pub mod Types
pub mod DateText
pub mod Cadence
pub mod Transitions
