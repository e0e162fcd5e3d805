-- ===== src/Kern/Utf8.antt =====
-- Characters and their bytes (src/kern/utf8.hpp). Codes are non-negative; shifts and masks of them
-- are quotients and remainders. A text ends with a byte 0, so a byte beyond its list reads as 0.
use xemeiah.Prelude.{
  ℕ, zero, suc, ◌+◌, ◌*◌, ◌/◌, ◌%◌, ◌≤◌, ◌<◌, ◌≡◌, refl, Bool, List, [], ◌∷◌, ◌++◌, ◌==◌, leb, ltb,
  if◌then◌else◌, arith, length, Bool-cases, inl, inr,
}

-- What `utf8CharToCode` returns: the code with the number of bytes read, or -1 with `bytes` as 1 or
-- as -1.
pub data Decoded : Type 0 where
  decoded : (code bytes : ℕ) → Decoded
  bad_continuation bad_first : Decoded

-- What `utf8CodeToChar` does: it writes the bytes (and a 0 behind them) and returns their number, or
-- returns -1, or calls `Bug`.
pub data Encoded : Type 0 where
  encoded : List ℕ → Encoded
  no_room out_of_bounds : Encoded

abbrev pub byte_at : List ℕ → ℕ → ℕ
byte_at [] i = 0
byte_at (b ∷ text) zero = b
byte_at (b ∷ text) (suc i) = byte_at text i

-- ( b & 0xC0 ) == 0x80
is_continuation : ℕ → Bool
is_continuation b = (b / 64) == 2

unfoldable pub utf8_char_to_code : List ℕ → Decoded
unfolding is_continuation
utf8_char_to_code vl =
    let b₀ = byte_at vl 0 in
    let b₁ = byte_at vl 1 in
    let b₂ = byte_at vl 2 in
    let b₃ = byte_at vl 3 in
    if leb b₀ 0x7f
    then decoded b₀ 1
    else if (b₀ / 32) == 6
    then (if is_continuation b₁ then decoded (b₀ % 32 * 64 + b₁ % 64) 2 else bad_continuation)
    else if (b₀ / 16) == 14
    then (if is_continuation b₁
        then (if is_continuation b₂
            then decoded ((b₀ % 16 * 64 + b₁ % 64) * 64 + b₂ % 64) 3
            else bad_continuation)
        else bad_continuation)
    else if (b₀ / 8) == 30
    then (if is_continuation b₁
        then (if is_continuation b₂
            then (if is_continuation b₃
                then decoded (((b₀ % 8 * 64 + b₁ % 64) * 64 + b₂ % 64) * 64 + b₃ % 64) 4
                else bad_continuation)
            else bad_continuation)
        else bad_continuation)
    else bad_first

-- 0 is the result -1.
unfoldable pub utf8_char_size : ℕ → ℕ
utf8_char_size first =
    if ltb first 0x80
    then 1
    else if (first / 32) == 6
    then 2
    else if (first / 16) == 14
    then 3
    else if (first / 8) == 30
    then 4
    else 0

-- 0 is the call of `Bug`.
unfoldable pub utf8_code_size : ℕ → ℕ
utf8_code_size code =
    if ltb code 0x80
    then 1
    else if ltb code 0x800
    then 2
    else if ltb code 0x10000
    then 3
    else if ltb code 0x200000
    then 4
    else if ltb code 0x4000000
    then 5
    else 0

unfoldable pub utf8_code_to_char : (code bytes : ℕ) → Encoded
utf8_code_to_char code bytes =
    if bytes == 0
    then out_of_bounds
    else if ltb code 0x80
    then (if ltb bytes 2 then no_room else encoded (code ∷ []))
    else if ltb code 0x800
    then (if ltb bytes 3 then no_room else encoded ((0xc0 + code / 64) ∷ (0x80 + code % 64) ∷ []))
    else if ltb code 0x10000
    then (if ltb bytes 4
        then no_room
        else encoded ((0xe0 + code / 4096) ∷ (0x80 + code / 64 % 64) ∷ (0x80 + code % 64) ∷ []))
    else if ltb code 0x200000
    then (if ltb bytes 5
        then no_room
        else encoded (
            (0xf0 + code / 262144)
            ∷ (0x80 + code / 4096 % 64)
            ∷ (0x80 + code / 64 % 64)
            ∷ (0x80 + code % 64)
            ∷ []))
    else if ltb code 0x4000000
    then (if ltb bytes 6
        then no_room
        else encoded (
            (0xf8 + code / 16777216)
            ∷ (0x80 + code / 262144 % 64)
            ∷ (0x80 + code / 4096 % 64)
            ∷ (0x80 + code / 64 % 64)
            ∷ (0x80 + code % 64)
            ∷ []))
    else out_of_bounds

-- What the round trip of a code needs of the bytes that are written for it.
RoundTrip : (code bytes : ℕ) → Type 0
RoundTrip code bytes =
    (text : List ℕ) × (utf8_code_to_char code bytes ≡ encoded text)
    × (length text ≡ utf8_code_size code)
    × (utf8_char_size (byte_at text 0) ≡ utf8_code_size code)
    × ((rest : List ℕ) → utf8_char_to_code (text ++ rest) ≡ decoded code (utf8_code_size code))

one_byte : (code bytes : ℕ) → code < 0x80 → 1 < bytes → RoundTrip code bytes
unfolding RoundTrip utf8_code_to_char utf8_code_size utf8_char_size utf8_char_to_code
one_byte code bytes small room =
    (code ∷ [], ground arith, ground arith, ground arith, λ rest. ground arith)

two_bytes : (code bytes : ℕ) → (0x80 ≤ code) × (code < 0x800) → 2 < bytes → RoundTrip code bytes
unfolding RoundTrip utf8_code_to_char utf8_code_size utf8_char_size utf8_char_to_code
two_bytes code bytes (low, small) room = (
  (0xc0 + code / 64) ∷ (0x80 + code % 64) ∷ [],
  ground arith,
  ground arith,
  ground arith,
  λ rest. ground arith,
)

three_bytes :
    (code bytes : ℕ) → (0x800 ≤ code) × (code < 0x10000) → 3 < bytes → RoundTrip code bytes
unfolding RoundTrip utf8_code_to_char utf8_code_size utf8_char_size utf8_char_to_code
three_bytes code bytes (low, small) room = (
  (0xe0 + code / 4096) ∷ (0x80 + code / 64 % 64) ∷ (0x80 + code % 64) ∷ [],
  ground arith,
  ground arith,
  ground arith,
  λ rest. ground arith,
)

four_bytes :
    (code bytes : ℕ) → (0x10000 ≤ code) × (code < 0x200000) → 4 < bytes → RoundTrip code bytes
unfolding RoundTrip utf8_code_to_char utf8_code_size utf8_char_size utf8_char_to_code
four_bytes code bytes (low, small) room = (
  (0xf0 + code / 262144)
      ∷ (0x80 + code / 4096 % 64)
      ∷ (0x80 + code / 64 % 64)
      ∷ (0x80 + code % 64)
      ∷ [],
  ground arith,
  ground arith,
  ground arith,
  λ rest. ground arith,
)

-- A code below 2 ^ 21 that the buffer has room for is written in `utf8CodeSize` bytes, the first of
-- which tells their number, and is read back from them, whatever follows.
pub code-round_trip :
    (code bytes : ℕ)
    → code < 0x200000
    → utf8_code_size code < bytes
    → (text : List ℕ) × (utf8_code_to_char code bytes ≡ encoded text)
      × (length text ≡ utf8_code_size code)
      × (utf8_char_size (byte_at text 0) ≡ utf8_code_size code)
      × ((rest : List ℕ) → utf8_char_to_code (text ++ rest) ≡ decoded code (utf8_code_size code))
unfolding RoundTrip utf8_code_size
code-round_trip code bytes small room = elim (Bool-cases (ltb code 0x80)) [
  | inl a ↦ one_byte code bytes (ground arith) (ground arith)
  | inr a ↦ elim (Bool-cases (ltb code 0x800)) [
    | inl b ↦ two_bytes code bytes (ground arith, ground arith) (ground arith)
    | inr b ↦ elim (Bool-cases (ltb code 0x10000)) [
      | inl c ↦ three_bytes code bytes (ground arith, ground arith) (ground arith)
      | inr c ↦ four_bytes code bytes (ground arith, small) (ground arith)
    ]
  ]
]

-- A code from 2 ^ 21 to 2 ^ 26 - 1 is written in five bytes that cannot be read: neither the size of
-- the character nor its code is found.
pub code-five_bytes :
    (code bytes : ℕ)
    → 0x200000 ≤ code
    → code < 0x4000000
    → 5 < bytes
    → (text : List ℕ) × (utf8_code_to_char code bytes ≡ encoded text)
      × (length text ≡ 5)
      × (utf8_char_size (byte_at text 0) ≡ 0)
      × ((rest : List ℕ) → utf8_char_to_code (text ++ rest) ≡ bad_first)
unfolding utf8_code_to_char utf8_char_size utf8_char_to_code
code-five_bytes code bytes low small room = (
  (0xf8 + code / 16777216)
      ∷ (0x80 + code / 262144 % 64)
      ∷ (0x80 + code / 4096 % 64)
      ∷ (0x80 + code / 64 % 64)
      ∷ (0x80 + code % 64)
      ∷ [],
  ground arith,
  refl,
  ground arith,
  λ rest. ground arith,
)

-- A buffer with no room for the bytes and the 0 behind them is left alone.
pub code-no_room :
    (code bytes : ℕ)
    → code < 0x4000000
    → 0 < bytes
    → bytes ≤ utf8_code_size code
    → utf8_code_to_char code bytes ≡ no_room
unfolding utf8_code_to_char utf8_code_size
code-no_room code bytes small some_room room = ground arith
