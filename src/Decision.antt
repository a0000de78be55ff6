-- ===== src/Decision.antt =====
-- workflow/decision_engine.py: the deterministic policy over the model output (ai/schemas.py).
pub mod Schemas
pub mod Context
pub mod Evidence
pub mod Assessment
pub mod Engine
pub mod Provenance
pub mod Clearance
pub mod Safety
pub mod Policy
