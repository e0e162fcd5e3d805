-- ===== src/XPath.antt =====
-- XPath: src/xpath.
pub mod Avt
