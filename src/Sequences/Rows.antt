-- ===== src/Sequences/Rows.antt =====
-- What the rows of `Sequences` hold after a round of generation.
use onnxruntime_genai_privat.Base.{
  ℕ, ◌+◌, ◌*◌, ◌≤◌, ◌<◌, ◌≡◌, refl, List, [], ◌∷◌, ◌++◌, some, arith, ◌==◌, ltb, if◌then◌else◌,
  ◌&&◌, get_elem?, set, length, for_range_inv, cell_lt, row_le, length-take, length-drop, drop,
  cell_eq, get_elem?-set, get_elem?-subspan, get_elem?-append, length-set, List-ext,
}
use onnxruntime_genai_privat.Base.Int.{ℤ}
use onnxruntime_genai_privat.Sequences.{
  Sequences, at, get_sequence, get_sequence_length, append_tokens,
}

-- The buffer holds every row, and no row is longer than the buffer has room for.
pub record IsValid (s : Sequences) : Type 0 where
  pub sized : length s.sequences ≡ s.batch_beam_size * s.max_length
  pub fits : s.current_length ≤ s.max_length

-- For a beam search: the second buffer has the same size.
pub record IsValidBeam (s : Sequences) : Type 0 where
  pub valid : IsValid s
  pub sized_next : length s.sequences_next ≡ s.batch_beam_size * s.max_length

-- A row has the current length.
pub length-get_sequence :
    (s : Sequences) (i : ℕ)
    → IsValid s
    → i < s.batch_beam_size
    → length (get_sequence s i) ≡ s.current_length
unfolding get_sequence
length-get_sequence s i v h = omega (
  arith,
  length-take s.current_length (drop (i * s.max_length) s.sequences),
  length-drop (i * s.max_length) s.sequences,
  v.sized,
  v.fits,
  row_le i s.batch_beam_size s.max_length h,
)

-- The state of a buffer after `k` rounds of the greedy loop.
record Written (s : Sequences) (tokens : List ℤ) (k : ℕ) (b : List ℤ) : Type 0 where
  same_size : length b ≡ length s.sequences
  cell :
      (r c : ℕ)
      → r < s.batch_beam_size
      → c < s.max_length
      → get_elem? b (r * s.max_length + c) ≡ (
          if ltb r k && c == s.current_length
          then some (at tokens r)
          else get_elem? s.sequences (r * s.max_length + c))

module _ (s : Sequences) (tokens : List ℤ) (valid : IsValid s)
    (room : s.current_length < s.max_length) where
  Written-round :
      (k : ℕ) (b : List ℤ)
      → k < s.batch_beam_size
      → Written s tokens k b
      → Written s tokens (k + 1) (set b (k * s.max_length + s.current_length) (at tokens k))
  Written-round k b lt w = record {
    same_size =
        omega
          (arith, w.same_size, length-set b (k * s.max_length + s.current_length) (at tokens k));
    cell = λ r c hr hc. ground (
      arith,
      w.cell r c hr hc,
      w.same_size,
      valid.sized,
      cell_lt k s.batch_beam_size s.current_length s.max_length lt room,
      get_elem?-set b (k * s.max_length + s.current_length) (r * s.max_length + c) (at tokens k),
      cell_eq k r s.current_length c s.max_length room hc,
    );
  }

  Written-end : Written s tokens s.batch_beam_size (append_tokens s tokens).sequences
  unfolding append_tokens
  Written-end =
      for_range_inv (Written s tokens) _ s.batch_beam_size 0 s.batch_beam_size s.sequences
        (omega arith) Written-round (record { same_size = refl; cell = λ r c hr hc. ground arith })

  -- After a round of a greedy search every row is the old row with its next token behind it.
  pub get_sequence-append_tokens :
      (i : ℕ)
      → i < s.batch_beam_size
      → get_sequence (append_tokens s tokens) i ≡ get_sequence s i ++ at tokens i ∷ []
  unfolding get_sequence append_tokens
  get_sequence-append_tokens i hi = List-ext _ _ λ j. ground (
    arith,
    get_elem?-subspan (append_tokens s tokens).sequences (i * s.max_length) (s.current_length + 1)
        j,
    get_elem?-append (get_sequence s i) (at tokens i ∷ []) j,
    get_elem?-subspan s.sequences (i * s.max_length) s.current_length j,
    length-get_sequence s i valid hi,
    Written-end.cell i j hi,
  )

  -- A round keeps the layout and makes every row one token longer.
  append_tokens-IsValid :
      IsValid (append_tokens s tokens)
      × (get_sequence_length (append_tokens s tokens) ≡ get_sequence_length s + 1)
  unfolding append_tokens get_sequence_length
  append_tokens-IsValid = (
    record { sized = omega (arith, Written-end.same_size, valid.sized); fits = omega arith },
    refl,
  )

-- A round keeps the sizes and makes every row one token longer.
pub append_tokens_sizes :
    (s : Sequences) (tokens : List ℤ)
    → ((append_tokens s tokens).max_length ≡ s.max_length)
      × (get_sequence_length (append_tokens s tokens) ≡ get_sequence_length s + 1)
unfolding append_tokens get_sequence_length
append_tokens_sizes s tokens = (refl, refl)
