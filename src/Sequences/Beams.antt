-- ===== src/Sequences/Beams.antt =====
-- What the rows of `Sequences` hold after a round of a beam search.
use onnxruntime_genai_privat.Base.{
  ℕ, ◌+◌, ◌*◌, ◌-◌, ◌<◌, ◌≡◌, refl, List, [], ◌∷◌, ◌++◌, arith, get_or, get_elem?, write_at, length,
  for_range_inv, cell_lt, get_elem?-write_row, cell_eq, get_elem?-set, get_elem?-subspan,
  get_elem?-append, get_elem?-out, length-set, length-write_at, List-ext,
}
use onnxruntime_genai_privat.Base.Int.{ℤ}
use onnxruntime_genai_privat.Sequences.{
  Sequences, at, get_sequence, get_sequence_length, append_beam, append_beams,
}
use onnxruntime_genai_privat.Sequences.Rows.{IsValidBeam, length-get_sequence}

-- The state of the second buffer after `k` rounds of the beam loop.
record Moved (s : Sequences) (indices : List ℕ) (tokens : List ℤ) (k : ℕ) (b : List ℤ)
    : Type 0 where
  same_size : length b ≡ length s.sequences_next
  cell :
      (r c : ℕ)
      → r < s.batch_beam_size
      → c < s.current_length + 1
      → r < k
      → get_elem? b (r * s.max_length + c)
        ≡ get_elem? (get_sequence s (get_or indices r 0) ++ at tokens r ∷ []) c

-- The chosen rows exist.
abbrev pub InRange : Sequences → List ℕ → Type 0
InRange s indices = (r : ℕ) → r < s.batch_beam_size → get_or indices r 0 < s.batch_beam_size

module _ (s : Sequences) (indices : List ℕ) (tokens : List ℤ) (valid : IsValidBeam s)
    (room : s.current_length < s.max_length) (chosen : InRange s indices) where
  Moved-round :
      (k : ℕ) (b : List ℤ)
      → k < s.batch_beam_size
      → Moved s indices tokens k b
      → Moved s indices tokens (k + 1) (append_beam s indices tokens k b)
  unfolding append_beam get_sequence
  Moved-round k b lt w =
      let source = get_sequence s (get_or indices k 0) in
      let place = k * s.max_length + s.current_length in
      let full : length source ≡ s.current_length =
        length-get_sequence s (get_or indices k 0) valid.valid (chosen k lt) in
      let inside : place < length b = omega (
        arith,
        w.same_size,
        valid.sized_next,
        cell_lt k s.batch_beam_size s.current_length s.max_length lt room,
      ) in
      record {
        same_size = omega (
          arith,
          w.same_size,
          length-set (write_at b (k * s.max_length) source) place (at tokens k),
          length-write_at b (k * s.max_length) source,
        );
        cell = λ r c hr hc hk. ground (
          arith,
          w.cell r c hr hc,
          get_elem?-set (write_at b (k * s.max_length) source) place (r * s.max_length + c)
              (at tokens k),
          length-write_at b (k * s.max_length) source,
          cell_eq k r s.current_length c s.max_length room,
          get_elem?-write_row b k r c s.max_length source,
          get_elem?-append source (at tokens k ∷ []) c,
        );
      }

  Moved-end : Moved s indices tokens s.batch_beam_size (append_beams s indices tokens).sequences
  unfolding append_beams
  Moved-end =
      for_range_inv (Moved s indices tokens) _ s.batch_beam_size 0 s.batch_beam_size
        s.sequences_next (omega arith) Moved-round
        (record { same_size = refl; cell = λ r c hr hc hk. elim hk [ ] })

  -- After a round of a beam search row `i` is the chosen old row with its next token behind it.
  pub get_sequence-append_beams :
      (i : ℕ)
      → i < s.batch_beam_size
      → get_sequence (append_beams s indices tokens) i
        ≡ get_sequence s (get_or indices i 0) ++ at tokens i ∷ []
  unfolding get_sequence append_beams
  get_sequence-append_beams i hi = List-ext _ _ λ j. ground (
    arith,
    get_elem?-subspan (append_beams s indices tokens).sequences (i * s.max_length)
        (s.current_length + 1) j,
    get_elem?-append (get_sequence s (get_or indices i 0)) (at tokens i ∷ []) j,
    get_elem?-out (at tokens i ∷ []) (j - s.current_length),
    length-get_sequence s (get_or indices i 0) valid.valid (chosen i hi),
    Moved-end.cell i j hi,
  )

  -- The round keeps the layout of both buffers, and makes every row one token longer.
  pub append_beams-IsValidBeam :
      IsValidBeam (append_beams s indices tokens)
      × (get_sequence_length (append_beams s indices tokens) ≡ get_sequence_length s + 1)
  unfolding append_beams get_sequence_length
  append_beams-IsValidBeam = (
    record {
      valid = record {
        sized = omega (arith, Moved-end.same_size, valid.sized_next);
        fits = omega arith;
      };
      sized_next = valid.valid.sized;
    },
    refl,
  )

-- A round keeps the sizes.
pub append_beams_sizes :
    (s : Sequences) (indices : List ℕ) (tokens : List ℤ)
    → ((append_beams s indices tokens).batch_beam_size ≡ s.batch_beam_size)
      × (get_sequence_length (append_beams s indices tokens) ≡ get_sequence_length s + 1)
unfolding append_beams get_sequence_length
append_beams_sizes s indices tokens = (refl, refl)
