-- ===== src/Packageref.antt =====
-- internal/packageref: the references that the files of a package make to its own content, found
-- without reading the files as code.
pub mod Scanner
pub mod References
pub mod Spliced
pub mod Files
mod Tests
