-- ===== src/Dom/Recorded.antt =====
-- What the linking operations of dom/elementref.cpp leave in the journal: they write no element id
-- and no journal item themselves, so one call of `appendJournal` adds the item of its arguments.
use xemeiah.Dom.Element.{
  Document, append_journal, link_after_last, link_only_child, splice_after, link_first,
}
use xemeiah.Kern.JournalItem.{JournalOperation, JournalItem}
use xemeiah.Prelude.{ℕ, ◌≡◌, refl, ◌≢◌, List, [], ◌∷◌, ◌++◌, if◌then◌else◌, arith}

-- The item that a call on `base` with `alt` leaves in the journal.
abbrev pub item_for : Document → JournalOperation → ℕ → ℕ → JournalItem
item_for d op base alt = record {
  op = op;
  base_element_id = (d.element base).id;
  alt_element_id = (d.element alt).id;
  attribute_key_id = 0;
}

-- The document's journal with the item behind it, or as it is if the journal is disabled.
abbrev pub recorded : Document → JournalItem → List JournalItem
recorded d item = if d.journal_enabled then d.journal ++ item ∷ [] else d.journal

-- The ids and the journal are the same.
pub record SameRecord (d e : Document) : Type 0 where
  pub ids : (x : ℕ) → (e.element x).id ≡ (d.element x).id
  pub journal : e.journal ≡ d.journal
  pub enabled : e.journal_enabled ≡ d.journal_enabled

pub append_journal-item :
    (d e : Document) (op : JournalOperation) (base alt : ℕ)
    → SameRecord d e
    → alt ≢ 0
    → (append_journal base op alt 0 e).journal ≡ recorded d (item_for d op base alt)
unfolding append_journal
append_journal-item d e op base alt s ne =
    ground (arith, s.ids base, s.ids alt, s.enabled, s.journal)

pub link_after_last-SameRecord :
    (me new : ℕ) (d : Document) → SameRecord d (link_after_last me new d)
unfolding link_after_last
link_after_last-SameRecord me new d = record { ids = ground arith; journal = refl; enabled = refl }

pub link_only_child-SameRecord :
    (me new : ℕ) (d : Document) → SameRecord d (link_only_child me new d)
unfolding link_only_child
link_only_child-SameRecord me new d = record { ids = ground arith; journal = refl; enabled = refl }

pub splice_after-SameRecord : (me new : ℕ) (d : Document) → SameRecord d (splice_after me new d)
unfolding splice_after
splice_after-SameRecord me new d = record {
  ids = ground arith;
  journal = ground arith;
  enabled = ground arith;
}

pub link_first-SameRecord : (me new : ℕ) (d : Document) → SameRecord d (link_first me new d)
unfolding link_first
link_first-SameRecord me new d = record {
  ids = ground arith;
  journal = ground arith;
  enabled = ground arith;
}
