-- ===== src/Dom.antt =====
-- The tree of elements: src/dom/elementref.cpp and elementref.hpp, over the segments of
-- include/Xemeiah/kern/format/dom.h.
pub mod Element
pub mod Siblings
pub mod SkipMap
pub mod Splice
pub mod Tree
pub mod Ends
pub mod AppendLast
pub mod Recorded
pub mod InsertChild
pub mod InsertAfter
pub mod InsertBefore
pub mod Removal
pub mod Unlink
pub mod Count
mod Tests
