-- ===== src/Emit.antt =====
-- Writing scalars (src/emit_util.rs).
pub mod Scalar
pub mod Folded
pub mod Float
