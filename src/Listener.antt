-- ===== src/Listener.antt =====
-- listener/listener.go: the walk over the parse tree that builds the syntax tree on a stack.
pub mod Node
pub mod Build
pub mod Blocks
pub mod Declarations
pub mod Trees
pub mod Stack
pub mod Walk
pub mod Denote
pub mod Pops
pub mod Runs
pub mod Children
pub mod Agree
mod Tests
