-- ===== src/Go.antt =====
-- The functions of Go's standard library that the program calls, on texts as lists of bytes.
pub mod Strings
pub mod Decimal
pub mod FilePath
pub mod Hex
pub mod Sort
pub mod Fields
pub mod Numbers
pub mod Slices
