-- ===== src/Go.antt =====
-- The Go language and its standard library, as far as the program uses them: outcomes of a
-- function that may end the process, numbers and texts, and the removal loop over a slice.
pub mod Outcome
pub mod Strconv
pub mod Strings
pub mod Slice
pub mod Json
