-- ===== src/Tests/Quotes.antt =====
-- A quoted text.
use onnxruntime_genai_privat.Base.{ℕ, ◌≡◌, refl, List, [], ◌∷◌, ◌++◌, inr}
use onnxruntime_genai_privat.Json.Text.{escape, parse_string}
use onnxruntime_genai_privat.Json.Text.Quoted.{parse_string-escape}

-- Written with its marks: a, a quote and a backslash.
abbrev marked : List ℕ
marked = b'a' ∷ b'"' ∷ 92 ∷ []

parse_string-escape_example :
    parse_string {E = ℕ} (escape marked ++ b'"' ∷ b',' ∷ []) ≡ inr (marked, b',' ∷ [])
parse_string-escape_example = parse_string-escape marked (b',' ∷ []) (refl, (refl, (refl, tt)))
