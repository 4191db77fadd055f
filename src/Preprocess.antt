-- ===== src/Preprocess.antt =====
-- preprocess/preprocess.go: the walk that names the nodes of a syntax tree and expands the instances.
pub mod Tree
pub mod Processor
pub mod Collapse
pub mod Naming
pub mod Structs
pub mod Instances
pub mod Calls
pub mod Walk
mod Tests
