-- ===== src/Types.antt =====
-- types/types.go: the type checker.
pub mod Ty
pub mod Expr
pub mod Checker
pub mod Steps
pub mod Infer
pub mod Operands
pub mod Sums
pub mod Combined
pub mod Leaves
pub mod Arithmetic
pub mod Scope
mod Tests
