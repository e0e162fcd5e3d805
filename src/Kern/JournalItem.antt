-- ===== src/Kern/JournalItem.antt =====
-- What the journal records of a change (include/Xemeiah/kern/format/journal.h).
use xemeiah.Prelude.{ℕ}

pub data JournalOperation : Type 0 where
  no_op insert_child append_child insert_before insert_after update_text_node remove :
      JournalOperation
  update_attribute delete_attribute update_blob build_meta last_operation : JournalOperation

-- The operation, both element ids and the attribute key; a document keeps its items in a list,
-- in the order of nextJournalItem.
pub record JournalItem : Type 0 where
  pub op : JournalOperation
  pub base_element_id : ℕ
  pub alt_element_id : ℕ
  pub attribute_key_id : ℕ
