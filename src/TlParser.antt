-- ===== src/TlParser.antt =====
-- tl_parser/src/lib.rs: the declarations of a schema, and the loop that parses them.
pub mod Text
pub mod Combinator
pub mod Names
pub mod Ends
pub mod Loop
pub mod EndedTerms
pub mod Ended
pub mod Nom
pub mod Grammar
pub mod Declaration
pub mod Chars
pub mod Reads
pub mod Conditions
pub mod Terms
pub mod Arguments
pub mod Fields
mod Decls
pub mod RoundTrip
pub mod Schema
pub mod Lines
pub mod Whole
