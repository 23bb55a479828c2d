-- ===== src/Json/Parser.antt =====
-- `Parse_Value`, `Parse_Object` and `Parse_Array` of src/json.cpp.
use onnxruntime_genai_privat.Base.{
  ℕ, zero, suc, Bool, true, false, ◌&&◌, ◌||◌, Option, none, some, List, [], ◌∷◌, ◌==◌, leb,
  if◌then◌else◌, ◌⊎◌, inl, inr,
}
use onnxruntime_genai_privat.Json.Text.{
  Error, end_of_data, expecting_name, expecting_colon, expecting_brace_or_comma,
  expecting_bracket_or_comma, expecting_number, unknown_value, thrown, skip_space, skip_char,
  skip_word, parse_string,
}

-- The virtual functions of `JSON::Element`, on elements `X` that share a state `S`, with numbers `D` and
-- exceptions `E`; `none` is an `unknown_value_error`.
pub record Handlers (X S D E : Type 0) : Type 0 where
  pub on_complete : X → Bool → S → S
  pub on_string : X → List ℕ → List ℕ → S → Option E ⊎ S
  pub on_number : X → List ℕ → D → S → Option E ⊎ S
  pub on_bool : X → List ℕ → Bool → S → Option E ⊎ S
  pub on_null : X → List ℕ → S → Option E ⊎ S
  pub on_array : X → List ℕ → S → Option E ⊎ (X × S)
  pub on_object : X → List ℕ → S → Option E ⊎ (X × S)

-- What is to be read next: a value with its name, or the members of an object or the values of an
-- array, from the name or the value on.
pub data Task (X : Type 0) : Type 0 where
  value : X → List ℕ → Task X
  members : X → Task X
  items : X → Task X

module _ {X S D E : Type 0} (handlers : Handlers X S D E)
    (from_chars : List ℕ → Option (D × List ℕ)) where
  -- What a function of the parser yields: an exception, or the text behind and the state; `none` when
  -- the fuel is used up.
  abbrev Result : Type 0
  Result = Option (Error E ⊎ (List ℕ × S))

  abbrev fail : Error E → Result
  fail e = some (inl e)

  -- The exception that leaves `Parse_Value` when a handler throws.
  unfoldable pub named : List ℕ → Option E → Error E
  named name none = unknown_value name
  named name (some e) = thrown e

  -- A handler was called, and the text goes on with `text`.
  abbrev called : List ℕ → List ℕ → Option E ⊎ S → Result
  called name text (inl e) = some (inl (named name e))
  called name text (inr s) = some (inr (text, s))

  -- `Parse_Whitespace` behind a value.
  abbrev spaced : Result → Result
  spaced none = none
  spaced (some (inl e)) = some (inl e)
  spaced (some (inr (text, s))) = some (inr (skip_space text, s))

  -- The literals, the strings and the numbers of `Parse_Value`; other characters are passed over.
  unfoldable pub parse_scalar : X → List ℕ → ℕ → List ℕ → S → Result
  unfolding skip_word parse_string named
  parse_scalar x name c rest s =
      let (is_true, behind_true) = skip_word (b'r' ∷ b'u' ∷ b'e' ∷ []) rest in
      let (is_false, behind_false) = skip_word (b'a' ∷ b'l' ∷ b's' ∷ b'e' ∷ []) rest in
      let (is_null, behind_null) = skip_word (b'u' ∷ b'l' ∷ b'l' ∷ []) rest in
      if c == b'"'
      then elim (parse_string {E = E} rest) [
        | inl e ↦ fail e
        | inr (string, text) ↦ called name text (handlers.on_string x name string s)
      ]
      else if c == b't'
      then (if is_true
          then called name behind_true (handlers.on_bool x name true s)
          else some (inr (rest, s)))
      else if c == b'f'
      then (if is_false
          then called name behind_false (handlers.on_bool x name false s)
          else some (inr (rest, s)))
      else if c == b'n'
      then (if is_null
          then called name behind_null (handlers.on_null x name s)
          else some (inr (rest, s)))
      else if (leb b'0' c && leb c b'9') || c == b'-'
      then elim (from_chars (c ∷ rest)) [
        | none ↦ fail expecting_number
        | some (number, text) ↦ called name text (handlers.on_number x name number s)
      ]
      else some (inr (rest, s))

  -- What follows a member or an item: a comma and the next, the closing character, or an exception.
  abbrev follow : ℕ → Error E → (List ℕ → S → Result) → (List ℕ → S → Result) → Result → Result
  follow close error next last none = none
  follow close error next last (some (inl e)) = fail e
  follow close error next last (some (inr ([], s))) = fail end_of_data
  follow close error next last (some (inr (c ∷ text, s))) =
      let more = next text s in
      let done = last text s in if c == b',' then more else if c == close then done else fail error

  -- Behind the opening character: whitespace, then the closing one for an empty element, or more.
  abbrev opened : ℕ → X → (List ℕ → S → Result) → List ℕ → S → Result
  opened close x more text s =
      let (closed, behind) = skip_char close (skip_space text) in
      let rest = more behind s in
      if closed then some (inr (behind, handlers.on_complete x true s)) else rest

  -- `Parse_Value`, and the loops of `Parse_Object` and `Parse_Array`, on fuel for the calls.
  unfoldable pub parse : ℕ → Task X → List ℕ → S → Result
  unfolding parse_scalar skip_space skip_char parse_string named
  parse zero task text s = none
  parse (suc fuel) (value x name) text s = spaced (elim (skip_space text) [
    | [] ↦ fail end_of_data
    | c ∷ rest ↦
        let scalar = parse_scalar x name c rest s in
        let object : Result = elim (handlers.on_object x name s) [
          | inl e ↦ fail (named name e)
          | inr (y, t) ↦ opened b'}' y (λ behind u. parse fuel (members y) behind u) rest t
        ] in
        let array : Result = elim (handlers.on_array x name s) [
          | inl e ↦ fail (named name e)
          | inr (y, t) ↦ opened b']' y (λ behind u. parse fuel (items y) behind u) rest t
        ] in
        if c == b'{' then object else if c == b'[' then array else scalar
  ])
  parse (suc fuel) (members x) text s =
      let (quoted, behind) = skip_char b'"' text in
      let member : Result = elim (parse_string {E = E} behind) [
        | inl e ↦ fail e
        | inr (name, after) ↦ elim (skip_space after) [
          | [] ↦ fail end_of_data
          | c ∷ rest ↦
              let read = parse fuel (value x name) rest s in
              let followed =
                follow b'}' expecting_brace_or_comma
                  (λ t u. parse fuel (members x) (skip_space t) u)
                  (λ t u. some (inr (t, handlers.on_complete x false u))) read in
              if c == b':' then followed else fail expecting_colon
        ]
      ] in
      if quoted then member else fail expecting_name
  parse (suc fuel) (items x) text s =
      follow b']' expecting_bracket_or_comma (λ t u. parse fuel (items x) t u)
        (λ t u. some (inr (t, handlers.on_complete x false u))) (parse fuel (value x []) text s)
