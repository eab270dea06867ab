-- ===== src/Json.antt =====
-- JSON as encoding/json reads and writes it: values, and codecs of Go types.
pub mod Values
pub mod Folding
pub mod Codecs
pub mod Fields
pub mod Structs
pub mod Nested
pub mod Maps
pub mod Entries
pub mod Across
