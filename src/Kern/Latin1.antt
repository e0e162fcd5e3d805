-- ===== src/Kern/Latin1.antt =====
-- `iso8859ToUtf8` of src/kern/utf8.cpp. Its buffer always has 8 bytes left for the next character.
use xemeiah.Kern.Utf8.{
  Decoded, decoded, Encoded, encoded, utf8_code_to_char, utf8_char_to_code, utf8_code_size,
  code-round_trip,
}
use xemeiah.Prelude.{
  ℕ, zero, suc, ◌<◌, ◌≡◌, refl, List, [], ◌∷◌, ◌++◌, Option, none, some, ◌==◌, false, if◌then◌else◌,
  arith, length, drop,
}

-- The bytes of one character in front of those of the rest.
add_bytes : Encoded → Option (List ℕ) → Option (List ℕ)
add_bytes (encoded text) (some rest) = some (text ++ rest)
add_bytes e rest = none

-- The loop stops at the size, which the list ends at, or at a byte 0.
unfoldable pub iso8859_to_utf8 : List ℕ → Option (List ℕ)
unfolding add_bytes
iso8859_to_utf8 [] = some []
iso8859_to_utf8 (d ∷ str) =
    let rest = iso8859_to_utf8 str in
    if d == 0 then some [] else add_bytes (utf8_code_to_char d 8) rest

-- The codes that a text has, one `utf8CharToCode` after the other.
add_code : Decoded → Option (List ℕ) → Option (List ℕ)
add_code (decoded code bytes) (some rest) = some (code ∷ rest)
add_code e rest = none

bytes_of : Decoded → ℕ
bytes_of (decoded code bytes) = bytes
bytes_of e = 1

pub codes_of : ℕ → List ℕ → Option (List ℕ)
unfolding add_code bytes_of
codes_of zero text = none
codes_of (suc fuel) [] = some []
codes_of (suc fuel) (b ∷ text) =
    let next = utf8_char_to_code (b ∷ text) in
    let rest = codes_of fuel (drop (bytes_of next) (b ∷ text)) in add_code next rest

-- Every byte of the string is between 1 and 255.
abbrev pub AreBytes : List ℕ → Type 0
AreBytes [] = Unit
AreBytes (d ∷ str) = (0 < d) × (d < 256) × AreBytes str

drop-append : (text rest : List ℕ) → drop (length text) (text ++ rest) ≡ rest
drop-append [] rest = refl
drop-append (b ∷ text) rest = drop-append text rest

codes_of-step :
    (fuel d n : ℕ) (text rest codes : List ℕ)
    → length text ≡ n
    → 0 < n
    → utf8_char_to_code (text ++ rest) ≡ decoded d n
    → codes_of fuel rest ≡ some codes
    → codes_of (suc fuel) (text ++ rest) ≡ some (d ∷ codes)
unfolding codes_of
codes_of-step fuel d n [] rest codes len pos read more = absurd (omega arith)
codes_of-step fuel d n (b ∷ text) rest codes len pos read more =
    let left : drop n (b ∷ text ++ rest) ≡ rest = rw (← len) (drop-append (b ∷ text) rest) in
    rw (read, left, more) refl

byte_size : (d : ℕ) → d < 256 → (0 < utf8_code_size d) × (utf8_code_size d < 8)
unfolding utf8_code_size
byte_size d small = (ground arith, ground arith)

iso8859_to_utf8-cons :
    (d : ℕ) (str text rest : List ℕ)
    → 0 < d
    → utf8_code_to_char d 8 ≡ encoded text
    → iso8859_to_utf8 str ≡ some rest
    → iso8859_to_utf8 (d ∷ str) ≡ some (text ++ rest)
unfolding iso8859_to_utf8
iso8859_to_utf8-cons d str text rest pos write run =
    let live : (d == 0) ≡ false = ground arith in rw (live, write, run) refl

-- A string of bytes with no 0 is converted to a text whose characters have the bytes as their codes.
pub iso8859_to_utf8-codes :
    (str : List ℕ)
    → AreBytes str
    → (text : List ℕ) × (iso8859_to_utf8 str ≡ some text)
      × (codes_of (suc (length str)) text ≡ some str)
unfolding iso8859_to_utf8 codes_of
iso8859_to_utf8-codes [] h = ([], refl, refl)
iso8859_to_utf8-codes (d ∷ str) (pos, small, h) =
    let (rest, run, read) = iso8859_to_utf8-codes str h in
    let (some_bytes, room) = byte_size d small in
    let (text, write, len, first, back) = code-round_trip d 8 (omega arith) room in
    (
      text ++ rest,
      iso8859_to_utf8-cons d str text rest pos write run,
      codes_of-step (suc (length str)) d (utf8_code_size d) text rest str len some_bytes (back rest)
          read,
    )
