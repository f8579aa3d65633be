-- ===== src/Base/Bits.antt =====
-- Laws of `&` and `|` at variables. A field of a word is a quotient and a remainder, and `&` and
-- `|` act on each field by itself; at numerals both compute.
mod Step
mod Fields
pub use Fields.*
