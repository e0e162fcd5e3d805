-- ===== src/Xsl.antt =====
-- The XSLT processor: src/xsl.
pub mod Roman
pub mod Alphabetic
pub mod Grouping
pub mod Numbering
mod Tests
