-- ===== src/Lib.antt =====
-- Xemeiah: an XML store with versioned documents, an XPath evaluator and an XSLT processor in C++.
--
-- The program's kernel (src/kern) keeps documents as segments in pages; the document object model
-- (src/dom) links element segments by pointers into a tree, and records every change of it in the
-- document's journal; the processor (src/xprocessor, src/xpath, src/xsl) runs instructions over the
-- tree in an environment of scoped variables; names are interned to numbers by the key cache of the
-- kernel. Modelled are:
--
-- Prelude: shared names and helpers. `assert_bug` is AssertBug, with `none` for its failure.
-- Kern.ArrayMap, Kern.QNameMap, Kern.HashBucket: the maps of the key cache (`ArrayMap::put`, `get`,
--   `getLastKey` of src/include/Xemeiah/kern/arraymap.h; `QNameMap::put`, `get` of
--   src/kern/qnamemap.hpp; `get`, `put`, `remove`, `getHash` of
--   src/include/Xemeiah/kern/hashbucket.h). Keys are machine integers: sizes and hashes wrap at 32
--   bits, and the loop that clears new slots counts in 16.
-- Kern.JournalItem: the records of src/include/Xemeiah/kern/format/journal.h.
-- Dom.Element: the element segments of src/include/Xemeiah/kern/format/dom.h, and `insertBefore`,
--   `appendLastChild`, `insertAfter`, `insertChild` and `unlinkElementFromFather` of
--   src/dom/elementref.cpp, with the journal call of src/kern/journaleddocument.cpp that they make.
--   The memory of a document is a function from pointers to segments, so that aliased pointers are
--   aliased in the model. The state that an operation leaves is its result; `none` is a failed check.
-- Dom.Count: `getPosition`, `getLastPosition`, `getNumberOfChildren`. Their loops run on fuel, and
--   any fuel above the number of siblings that they pass is enough.
-- Dom.Tree: the view of a document as a list of children for each element. Dom.Siblings, Splice,
--   Ends, Recorded, Removal carry the proofs; AppendLast, InsertChild, InsertAfter, InsertBefore and
--   Unlink have a theorem for each operation.
-- XProcessor.Env: `Env` of src/xprocessor/env.hpp and src/xprocessor/env.cpp with its levels,
--   entries and items, and `pushEnv`, `popEnv`, `setVariable`, `getVariable`, `setString`. Items lie
--   on a heap, and a freed one is gone from it. Freeing runs on fuel, and any fuel above the number
--   of items made in the scope is enough. Scope and Binding carry the proofs.
-- Kern.Journal: `appendJournal` and `appendJournalItem` of src/kern/journaleddocument.cpp, on the
--   linked items of the store; in Dom.Element the journal is the list of what was appended.
-- Kern.Utf8, Kern.Latin1: `utf8CharToCode`, `utf8CharSize`, `utf8CodeSize` and `utf8CodeToChar` of
--   src/kern/utf8.hpp, and `iso8859ToUtf8` of src/kern/utf8.cpp. Bytes and codes are numbers.
-- Xsl.Numbering: `XSLNumbering::parse` and `XPath::evalNumbering` of src/xsl/xsl-numbering.cpp, with
--   the loops for Roman, alphabetic and grouped numbers in Xsl.Roman, Xsl.Alphabetic and
--   Xsl.Grouping. The Roman loop gets fuel above the number plus 6, and each run of it lowers the
--   number or the index into its tables; the grouping loops get 19, for the 18 digits that a position
--   may have. Xsl.Numbering.StateText, Xsl.Numbering.Parsed,
--   Xsl.Numbering.Evaluated, Xsl.Grouping.Separated, Xsl.Roman.Tables, Xsl.Roman.Value,
--   Xsl.Roman.Digit and Xsl.Roman.Numeral carry proofs.
-- Kern.Mutex: `Mutex` of src/kern/mutex.hpp, as a step relation of threads whose accesses to the
--   fields interleave, with the pthread mutex as POSIX documents it.
-- Kern.KeyId, Kern.KeyCache: the packing of key ids in src/include/Xemeiah/kern/keycache.h, and the
--   interning, parsing and printing of names in src/kern/keycache.cpp and src/kern/keycache.hpp, over
--   the maps above and the counters of src/kern/volatilestore.cpp. Names, Interning and Printing
--   carry the proofs.
-- Kern.NamespaceAlias: `NamespaceAlias` of src/kern/namespacealias.cpp, which the key cache is given
--   for the prefixes of names: levels of declarations, and two maps that they change. The built-in
--   keys are parameters. Scope, Levels, Leak and Lookup carry the proofs; a call leaks if it gives a
--   prefix another namespace with no declaration of that prefix in its level.
-- Dom.SkipMap: `SKMapRef::iterator` of src/dom/skmapref-iterator.cpp and src/dom/skmapref.hpp, on
--   items in a memory of segments; the pointers that the allocator gives and the values of `rand` are
--   arguments. The search runs on fuel: each round goes a level down or an item on, so the number
--   of levels with that of items is enough. Chains is the view as a list of items, Walk and Find are
--   about the search, Link, Splicing, Insertion, InnerInsertion, HeadInsertion and Insert about
--   insertion, Unlink, Erasure, Position, HeadErasure and Erase about erasure, Lookup about reading.
-- XPath.Avt: `XPathParser::doParseAVT` of src/xpath/xpathparser-avt.cpp, the split of an attribute
--   value template into texts and expressions, and the step that concatenates them. What an expression
--   is parsed to is left out. Split, Nested and Concat carry the proofs.
--
-- The checks that the source makes under PARANOID are taken to be on. Of the union in an element
-- segment only the member for attributes and children is kept, which these operations check for.
-- Not modelled: the pages and locks under a segment, and that a document is writable and locked
-- (`alter` and `protect` pairs are one write); documents that an environment binds; persistence,
-- XML and XPath parsing, XPath evaluation, XSLT instructions, and all input and output.
pub mod Prelude
pub mod Kern
pub mod Dom
pub mod XProcessor
pub mod XPath
pub mod Xsl
