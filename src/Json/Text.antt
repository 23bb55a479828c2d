-- ===== src/Json/Text.antt =====
-- The parts of the parser of src/json.cpp that only read the text: `Skip`, `GetChar`,
-- `Parse_Whitespace` and `Parse_String`. The text that is left stands for `current_` and `end_`.
pub mod Quoted
use onnxruntime_genai_privat.Base.{
  ℕ, zero, suc, ◌+◌, ◌≤◌, ◌<◌, ◌≡◌, refl, Bool, true, false, not, ◌&&◌, ◌||◌, List, [], ◌∷◌, ◌++◌,
  ◌==◌, leb, ltb, if◌then◌else◌, ◌⊎◌, inl, inr, length, arith, Bool-cases,
}

-- The messages of the parser's exceptions, with `unknown_value_error`, which `Parse_Value` turns into
-- one that names the value, and those that a handler throws itself.
pub data Error (E : Type 0) : Type 0 where
  end_of_data : Error E
  expecting_name : Error E
  expecting_colon : Error E
  expecting_brace_or_comma : Error E
  expecting_bracket_or_comma : Error E
  expecting_number : Error E
  end_in_code : Error E
  bad_code : Error E
  unsupported_code : Error E
  unknown_value : List ℕ → Error E
  thrown : E → Error E

-- Space, tab, carriage return and line feed.
unfoldable pub is_space : ℕ → Bool
is_space c = c == 32 || c == 9 || c == 13 || c == 10

-- `Parse_Whitespace`.
unfoldable pub skip_space : List ℕ → List ℕ
unfolding is_space
skip_space [] = []
skip_space (c ∷ text) = let rest = skip_space text in if is_space c then rest else c ∷ text

-- `Skip(char)`: whether it was there, and the text behind it.
unfoldable pub skip_char : ℕ → List ℕ → Bool × List ℕ
skip_char c [] = (false, [])
skip_char c (d ∷ text) = if d == c then (true, text) else (false, d ∷ text)

-- Whether a text starts with another.
unfoldable pub starts_with : List ℕ → List ℕ → Bool
starts_with [] text = true
starts_with (c ∷ word) [] = false
starts_with (c ∷ word) (d ∷ text) = c == d && starts_with word text

-- `drop` under the name of what it does here: the text behind `count` bytes.
unfoldable pub behind : ℕ → List ℕ → List ℕ
behind zero text = text
behind (suc count) [] = []
behind (suc count) (c ∷ text) = behind count text

-- `Skip(const char (&)[])`. The test is `current_ + count >= end_`: a word that ends where the
-- document ends is not skipped.
unfoldable pub skip_word : List ℕ → List ℕ → Bool × List ℕ
unfolding starts_with behind
skip_word word text =
    if leb (length text) (length word) || not (starts_with word text)
    then (false, text)
    else (true, behind (length word) text)

-- What a character behind a backslash stands for; others stand for themselves.
unfoldable pub unescape : ℕ → ℕ
unescape c =
    if c == b'b'
    then 8
    else if c == b'n'
    then 10
    else if c == b'f'
    then 12
    else if c == b'r'
    then 13
    else if c == b't'
    then 9
    else c

unfoldable pub is_hex : ℕ → Bool
is_hex c = (leb b'0' c && leb c b'9') || (leb b'a' c && leb c b'f') || (leb b'A' c && leb c b'F')

-- What is thrown behind `\u`: the code is read, and then refused in any case.
unfoldable pub code_error : {E : Type 0} → List ℕ → Error E
unfolding is_hex
code_error (a ∷ b ∷ c ∷ d ∷ text) =
    if is_hex a && is_hex b && is_hex c && is_hex d then unsupported_code else bad_code
code_error _ = end_in_code

-- A text with a backslash in front of each quote and backslash.
unfoldable pub escape : List ℕ → List ℕ
escape [] = []
escape (c ∷ text) =
    let rest = escape text in if c == b'"' || c == 92 then 92 ∷ c ∷ rest else c ∷ rest

module _ {E : Type 0} where
  -- A byte in front of a string that is read further on.
  abbrev pub prefixed : ℕ → Error E ⊎ (List ℕ × List ℕ) → Error E ⊎ (List ℕ × List ℕ)
  prefixed c (inl e) = inl e
  prefixed c (inr (string, text)) = inr (c ∷ string, text)

  -- `Parse_String`: up to a quote, or a NUL, which ends the loop too.
  unfoldable pub parse_string : List ℕ → Error E ⊎ (List ℕ × List ℕ)
  unfolding unescape code_error
  parse_string [] = inl end_of_data
  parse_string (c ∷ []) = if c == 0 || c == b'"' then inr ([], []) else inl end_of_data
  parse_string (c ∷ d ∷ text) =
      let plain = parse_string (d ∷ text) in
      let escaped = parse_string text in
      if c == 0 || c == b'"'
      then inr ([], d ∷ text)
      else if not (c == 92)
      then prefixed c plain
      else if d == b'u'
      then inl (code_error text)
      else prefixed (unescape d) escaped
