-- ===== src/Json.antt =====
-- libraries/support/jsonlib.cpp: the map of the JSON names, the scanner of JSON text and the output
-- of strings.
pub mod Names
pub mod Lookup
pub mod Insert
pub mod Toggle
pub mod Scan
pub mod Brackets
pub mod Equations
pub mod Formulas
pub mod Numbers
pub mod Operands
pub mod Nesting
pub mod Places
pub mod Mapped
pub mod Output
pub mod RoundTrip
pub mod Tokens
pub mod Lengths
pub mod Progress
pub mod Objects
pub mod Stream
pub mod Written
pub mod Runs
