-- ===== src/Tests/Rows.antt =====
-- The rows of `Sequences` on two prompts of one token.
use onnxruntime_genai_privat.Base.{
  ℕ, ◌+◌, ◌*◌, ◌≡◌, refl, List, [], ◌∷◌, ◌++◌, subspan, get_or, arith,
}
use onnxruntime_genai_privat.Base.Int.{ℤ, pos}
use onnxruntime_genai_privat.Sequences.{at, init, get_sequence, append_tokens, append_beams}
use onnxruntime_genai_privat.Sequences.Rows.{IsValid, IsValidBeam, get_sequence-append_tokens}
use onnxruntime_genai_privat.Sequences.Beams.{InRange, get_sequence-append_beams}
use onnxruntime_genai_privat.Sequences.Start.{get_sequence-init}
use onnxruntime_genai_privat.Tests.Values.{two_rows}

abbrev tokens : List ℤ
tokens = pos 5 ∷ pos 6 ∷ []

abbrev indices : List ℕ
indices = 1 ∷ 0 ∷ []

abbrev prompts : List ℤ
prompts = pos 7 ∷ pos 8 ∷ pos 9 ∷ pos 3 ∷ []

two_rows-IsValid : IsValid two_rows
two_rows-IsValid = record { sized = refl; fits = omega arith }

two_rows-IsValidBeam : IsValidBeam two_rows
two_rows-IsValidBeam = record { valid = two_rows-IsValid; sized_next = refl }

indices-InRange : InRange two_rows indices
indices-InRange r h = ground arith

get_sequence-append_tokens_example :
    get_sequence (append_tokens two_rows tokens) 1 ≡ get_sequence two_rows 1 ++ at tokens 1 ∷ []
get_sequence-append_tokens_example =
    get_sequence-append_tokens two_rows tokens two_rows-IsValid (omega arith) 1 (omega arith)

get_sequence-append_beams_example :
    get_sequence (append_beams two_rows indices tokens) 0
    ≡ get_sequence two_rows (get_or indices 0 0) ++ at tokens 0 ∷ []
get_sequence-append_beams_example =
    get_sequence-append_beams two_rows indices tokens two_rows-IsValidBeam (omega arith)
      indices-InRange 0 (omega arith)

get_sequence-init_example :
    get_sequence (init prompts 2 3 6) (1 * 3 + 2) ≡ subspan prompts (1 * 2) 2
get_sequence-init_example =
    get_sequence-init prompts 2 3 6 (omega arith) 1 2 refl (omega arith) (omega arith)
