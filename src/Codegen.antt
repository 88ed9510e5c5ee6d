-- ===== src/Codegen.antt =====
-- src/codegen: the instructions that the code generator asks LLVM's builder for. LLVM is not part of
-- this repository: a call of the builder is a constructor, and what it computes is a parameter.
pub mod Convert
pub mod Operators
pub mod Accepts
pub mod Operands
pub mod Binary
pub mod Casts
mod Examples
