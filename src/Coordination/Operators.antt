-- ===== src/Coordination/Operators.antt =====
-- src/coordination/control.ts: what a verified operator does for an owner that is gone.
pub mod Recovery
pub mod Operator
pub mod Adoption
pub mod OperatorEdits
