-- ===== src/Generator.antt =====
-- smt/generator.go: the parts of the SMT generator that do not read LLVM code.
pub mod Permutations
pub mod Rounds
pub mod Choosing
pub mod Writes
mod Tests
