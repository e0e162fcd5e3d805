-- ===== src/Kern/Tests.antt =====
-- The maps of the kernel, run on small inputs.
use xemeiah.Kern.ArrayMap
use xemeiah.Kern.HashBucket
use xemeiah.Kern.Journal
use xemeiah.Kern.JournalItem.{JournalItem, JournalOperation}
use xemeiah.Kern.QNameMap
use xemeiah.Kern.Utf8
use xemeiah.Kern.Latin1
use xemeiah.Prelude.{
  true, length, ◌<◌, ◌++◌, ℕ, ◌≡◌, refl, inr, false, ◌&&◌, List, [], ◌∷◌, Option, none, some, ◌==◌,
  ◌≢◌, ◌≤◌, if◌then◌else◌, arith, update,
}

abbrev two_slots : List (Option ℕ)
two_slots = none ∷ some 5 ∷ []

put-get_example :
    (map' : List (Option ℕ)) × (ArrayMap.put two_slots 3 7 ≡ some map')
    × ((k : ℕ) → ArrayMap.get map' k ≡ (if 3 == k then some 7 else ArrayMap.get two_slots k))
put-get_example = ArrayMap.put-get two_slots 3 7 (inr (omega arith, omega arith))

put-outside_example : ArrayMap.put two_slots 40000 7 ≡ none
put-outside_example =
    ArrayMap.put-outside two_slots 40000 7 (omega arith) (omega arith) (inr (omega arith))

put_zero_test : ArrayMap.put {A = ℕ} [] 0 7 ≡ none
unfolding ArrayMap.put
put_zero_test = refl

two_slots-get : ArrayMap.get two_slots 1 ≡ some 5
unfolding ArrayMap.get
two_slots-get = refl

get_last_key-greatest_example :
    (last : ℕ) × (ArrayMap.get_last_key two_slots ≡ some last)
    × ((v : ℕ) × (ArrayMap.get two_slots last ≡ some v))
    × ((k : ℕ) → ArrayMap.get two_slots k ≢ none → k ≤ last)
get_last_key-greatest_example = ArrayMap.get_last_key-greatest two_slots 1 5 two_slots-get

get-put_example :
    (ns_map' : List (Option (QNameMap.LocalMap ℕ))) × (QNameMap.put [] 2 3 9 ≡ some ns_map')
    × ((p i : ℕ)
        → QNameMap.get ns_map' p i
          ≡ (if (2 == p) && (3 == i) then some 9 else QNameMap.get {A = ℕ} [] p i))
get-put_example =
    QNameMap.get-put [] 2 3 9 (inr (omega arith, omega arith)) (inr (omega arith, omega arith))

-- "ab" and "ba" have different hashes.
abbrev one_name : HashBucket.HashEntries
one_name = update (λ h. []) 5 (record { key_id = 3; key = 97 ∷ 98 ∷ [] } ∷ [])

get-put_name_example :
    HashBucket.get (HashBucket.put one_name 4 (98 ∷ [])) (98 ∷ [])
    ≡ (if HashBucket.str_eq (98 ∷ []) (98 ∷ []) then 4 else HashBucket.get one_name (98 ∷ []))
get-put_name_example = HashBucket.get-put_name one_name 4 (98 ∷ []) (98 ∷ [])

-- "b" and "bz" have the same hash; "b" was put with the id 4, and again with the id 8.
abbrev later_names : List (ℕ × List ℕ)
later_names = (8, 98 ∷ []) ∷ (4, 98 ∷ 122 ∷ []) ∷ (7, 98 ∷ 122 ∷ []) ∷ []

remove-puts_example :
    (table' : HashBucket.HashEntries) × (HashBucket.remove
        (HashBucket.puts later_names (HashBucket.put one_name 4 (98 ∷ [])))
        4
        (98 ∷ [])
      ≡ some table')
    × ((hash : ℕ) → table' hash ≡ HashBucket.puts later_names one_name hash)
unfolding HashBucket.str_eq
remove-puts_example =
    HashBucket.remove-puts one_name 4 (98 ∷ []) later_names (refl, (refl, (refl, _)))

-- The table after "b" was put and taken out again.
abbrev taken_out : HashBucket.HashEntries
taken_out =
    update (HashBucket.put one_name 4 (98 ∷ [])) (HashBucket.get_hash (98 ∷ []))
      (one_name (HashBucket.get_hash (98 ∷ [])))

remove_b : HashBucket.remove (HashBucket.put one_name 4 (98 ∷ [])) 4 (98 ∷ []) ≡ some taken_out
unfolding HashBucket.remove HashBucket.put HashBucket.unlink HashBucket.get_hash HashBucket.str_eq
remove_b = refl

str_eq_test : HashBucket.str_eq (98 ∷ []) (97 ∷ []) ≡ false
unfolding HashBucket.str_eq
str_eq_test = refl

euro_size : Utf8.utf8_code_size 0x20ac < 8
unfolding Utf8.utf8_code_size
euro_size = omega arith

euro_room : 3 ≤ Utf8.utf8_code_size 0x20ac
unfolding Utf8.utf8_code_size
euro_room = omega arith

code-round_trip_example :
    (text : List ℕ) × (Utf8.utf8_code_to_char 0x20ac 8 ≡ Utf8.encoded text)
    × (length text ≡ Utf8.utf8_code_size 0x20ac)
    × (Utf8.utf8_char_size (Utf8.byte_at text 0) ≡ Utf8.utf8_code_size 0x20ac)
    × ((rest : List ℕ)
        → Utf8.utf8_char_to_code (text ++ rest) ≡ Utf8.decoded 0x20ac (Utf8.utf8_code_size 0x20ac))
code-round_trip_example = Utf8.code-round_trip 0x20ac 8 (omega arith) euro_size

code-five_bytes_example :
    (text : List ℕ) × (Utf8.utf8_code_to_char 0x200000 8 ≡ Utf8.encoded text)
    × (length text ≡ 5)
    × (Utf8.utf8_char_size (Utf8.byte_at text 0) ≡ 0)
    × ((rest : List ℕ) → Utf8.utf8_char_to_code (text ++ rest) ≡ Utf8.bad_first)
code-five_bytes_example = Utf8.code-five_bytes 0x200000 8 (omega arith) (omega arith) (omega arith)

code-no_room_example : Utf8.utf8_code_to_char 0x20ac 3 ≡ Utf8.no_room
code-no_room_example = Utf8.code-no_room 0x20ac 3 (omega arith) (omega arith) euro_room

iso8859_to_utf8-codes_example :
    (text : List ℕ) × (Latin1.iso8859_to_utf8 (233 ∷ 97 ∷ []) ≡ some text)
    × (Latin1.codes_of 3 text ≡ some (233 ∷ 97 ∷ []))
iso8859_to_utf8-codes_example =
    Latin1.iso8859_to_utf8-codes (233 ∷ 97 ∷ [])
      (omega arith, omega arith, (omega arith, omega arith, tt))

-- The items 5 and 9, and a new one at 12.
abbrev an_item : JournalItem
an_item = record {
  op = JournalOperation.remove;
  base_element_id = 3;
  alt_element_id = 0;
  attribute_key_id = 0;
}

abbrev two_items : Journal.Journal
two_items = record {
  item = λ p. an_item;
  next_journal_item = λ p. if p == 5 then 9 else 0;
  first_alloced_journal_item = 5;
  first_journal_item = 5;
  last_alloced_journal_item = 9;
  enabled = true;
}

two_items-Lists : Journal.Lists two_items (5 ∷ 9 ∷ [])
two_items-Lists = record {
  items = (refl, omega arith, (refl, omega arith, refl));
  last = refl;
  distinct = (refl, (refl, tt));
}

append_journal-Lists_example :
    Journal.Lists (Journal.append_journal 12 an_item two_items) (5 ∷ 9 ∷ 12 ∷ [])
    × ((Journal.append_journal 12 an_item two_items).item ≡ update two_items.item 12 an_item)
    × ((Journal.append_journal 12 an_item two_items).first_journal_item
        ≡ (if two_items.first_journal_item == 0 then 12 else two_items.first_journal_item))
append_journal-Lists_example =
    Journal.append_journal-Lists 12 an_item two_items (5 ∷ 9 ∷ []) two_items-Lists refl
      (omega arith) refl
