-- ===== src/Json/Text/Quoted.antt =====
-- Reading back a quoted string (src/json.cpp).
use onnxruntime_genai_privat.Base.{
  ℕ, ◌≡◌, refl, ◌∙◌, true, false, ◌||◌, List, [], ◌∷◌, ◌++◌, ◌==◌, ==_iff, inl, inr, arith,
  Bool-cases, All,
}
use onnxruntime_genai_privat.Json.Text.{unescape, escape, prefixed, parse_string}

module _ {E : Type 0} where
  -- A byte that ends nothing and escapes nothing stands for itself.
  parse_string-plain :
      (c : ℕ) (text : List ℕ)
      → (c == 0) ≡ false
      → (c == b'"' || c == 92) ≡ false
      → parse_string {E = E} (c ∷ text) ≡ prefixed c (parse_string text)
  unfolding parse_string
  parse_string-plain c [] z q =
      let quote : (c == b'"') ≡ false = ground (arith, q) in rw (z, quote) refl
  parse_string-plain c (d ∷ text) z q =
      let quote : (c == b'"') ≡ false = ground (arith, q) in
      let slash : (c == 92) ≡ false = ground (arith, q) in rw (z, quote, slash) refl

  -- An escaped quote or backslash stands for itself.
  parse_string-escaped :
      (c : ℕ) (text : List ℕ)
      → (c == b'"' || c == 92) ≡ true
      → parse_string {E = E} (92 ∷ c ∷ text) ≡ prefixed c (parse_string text)
  unfolding parse_string unescape
  parse_string-escaped c text q = elim (Bool-cases (c == b'"')) [
    | inl e ↦ let same : c ≡ b'"' = (==_iff c b'"').0 e in rw same refl
    | inr e ↦ let same : c ≡ 92 = (==_iff c 92).0 (ground (arith, q, e)) in rw same refl
  ]

  -- A string without NUL bytes, written with a backslash in front of each quote and backslash and
  -- with a quote behind it, is read back, up to that quote.
  pub parse_string-escape :
      (string rest : List ℕ)
      → All (λ c. (c == 0) ≡ false) string
      → parse_string {E = E} (escape string ++ b'"' ∷ rest) ≡ inr (string, rest)
  unfolding parse_string escape
  parse_string-escape [] [] plain = refl
  parse_string-escape [] (d ∷ rest) plain = refl
  parse_string-escape (c ∷ string) rest plain =
      let later = parse_string-escape string rest plain.1 in
      elim (Bool-cases (c == b'"' || c == 92)) [
        | inl e ↦ rw e (parse_string-escaped c (escape string ++ b'"' ∷ rest) e ∙ rw later refl)
        | inr e ↦
            rw e (parse_string-plain c (escape string ++ b'"' ∷ rest) plain.0 e ∙ rw later refl)
      ]
