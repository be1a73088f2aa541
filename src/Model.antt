-- ===== src/Model.antt =====
-- internal/model: points, their line protocol and its parser, over strings as lists of bytes.
pub mod Parsing
pub mod Rendering
pub mod Numbers
pub mod Keys
pub mod Escapes
pub mod RoundTrip
mod Runs
