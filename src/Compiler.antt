-- ===== src/Compiler.antt =====
-- The compiler pass (compiler/): the code that it inserts into a function.
pub mod Runtime
pub mod Ir
pub mod Values
pub mod Symbolizer
pub mod Visit
pub mod Casts
pub mod Members
pub mod Calls
pub mod Pass
pub mod PhiNodes
pub mod Ready
pub mod ShortCircuit
pub mod Equivalence
pub mod Support
pub mod Total
pub mod Offsets
pub mod Sizes
