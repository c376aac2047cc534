-- ===== src/Processor.antt =====
-- The processor of cpu86.py: decoding and executing the instructions of a user program.
pub mod Flags
pub mod Alu
pub mod Machine
pub mod Operands
pub mod Perform
pub mod Simple
pub mod Wide
pub mod Strings
pub mod Fetch
pub mod Decode
pub mod Opcodes
pub mod Run
pub mod Finish
pub mod Pieces
pub mod Blocks
pub mod Compare
pub mod Cached
mod Tests
