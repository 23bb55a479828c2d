-- ===== src/Beam/Search/Rows.antt =====
-- What a round of `BeamSearch_Cpu` (src/search.cpp) does to the rows.
use native.Mathlib.Nat.{div-lt_iff_lt-mul}
use onnxruntime_genai_privat.Base.{
  ℕ, zero, suc, ◌+◌, ◌*◌, ◌/◌, ◌<◌, ◌≤◌, ◌≡◌, ◌∙◌, Bool, List, [], ◌∷◌, ◌++◌, map, get_or, take,
  drop, length, length-take, All, All-append, arith, Bool-cases, inl, inr,
}
use onnxruntime_genai_privat.Base.Float.{FloatOps}
use onnxruntime_genai_privat.Std.{iota, insert_by, sort_by}
use onnxruntime_genai_privat.Sequences
use onnxruntime_genai_privat.Sequences.{Sequences, at}
use onnxruntime_genai_privat.Sequences.Rows.{IsValidBeam}
use onnxruntime_genai_privat.Sequences.Beams.{
  get_sequence-append_beams, append_beams-IsValidBeam, append_beams_sizes, InRange,
}
use onnxruntime_genai_privat.Search.{Params}
use onnxruntime_genai_privat.Search.Sampling.{ranked}
use onnxruntime_genai_privat.Beam.Scorer
use onnxruntime_genai_privat.Beam.Scorer.{Scorer}
use onnxruntime_genai_privat.Beam.Scorer.InRange.{IsInRange, process-IsInRange, All-get_or}
use onnxruntime_genai_privat.Beam.Search.{
  BeamSearch, add_beam_scores, entry_scores, entry_best, rows, next_scores, next_candidate_tokens,
  next_candidate_indices, append_next_tokens, select_top,
}

All-take : {A : Type 0} (P : A → Type 0) (n : ℕ) (xs : List A) → All P xs → All P (take n xs)
All-take P zero xs h = tt
All-take P (suc n) [] h = tt
All-take P (suc n) (x ∷ xs) h = (h.0, All-take P n xs h.1)

All-insert_by :
    {A : Type 0} (before : A → A → Bool) (P : A → Type 0) (x : A) (xs : List A)
    → P x
    → All P xs
    → All P (insert_by before x xs)
unfolding insert_by
All-insert_by before P x [] p h = (p, tt)
All-insert_by before P x (y ∷ ys) p h = elim (Bool-cases (before y x)) [
  | inl e ↦ rw e (h.0, All-insert_by before P x ys p h.1)
  | inr e ↦ rw e (p, h)
]

All-sort_by :
    {A : Type 0} (before : A → A → Bool) (P : A → Type 0) (xs : List A)
    → All P xs
    → All P (sort_by before xs)
unfolding sort_by
All-sort_by before P [] h = tt
All-sort_by before P (x ∷ xs) h = All-insert_by before P x _ h.0 (All-sort_by before P xs h.1)

All-iota : (bound i n : ℕ) → i + n ≤ bound → All (λ j. j < bound) (iota i n)
unfolding iota
All-iota bound i zero h = tt
All-iota bound i (suc n) h = (omega arith, All-iota bound (i + 1) n (omega arith))

All-quotients :
    (words bound : ℕ) (xs : List ℕ)
    → 0 < words
    → All (λ i. i < bound * words) xs
    → All (λ x. x < bound) (map (λ i. i / words) xs)
All-quotients words bound [] positive h = tt
All-quotients words bound (x ∷ xs) positive h =
    ((div-lt_iff_lt-mul positive).1 h.0, All-quotients words bound xs positive h.1)

module _ {F : Type 0} (ops : FloatOps F) where
  All-rows :
      (P : ℕ → Type 0) (row : ℕ → List ℕ) (bs : List ℕ)
      → ((b : ℕ) → All P (row b))
      → All P (rows ops row bs)
  unfolding rows
  All-rows P row [] h = tt
  All-rows P row (b ∷ bs) h = All-append P (row b) (rows ops row bs) (h b) (All-rows P row bs h)

  entry_best-bound :
      (p : Params F) (scores : List F) (b : ℕ)
      → All (λ i. i < p.num_beams * p.vocab_size) (entry_best ops p scores b)
  unfolding entry_best ranked entry_scores
  entry_best-bound p scores b =
      let words = p.num_beams * p.vocab_size in
      let entry = entry_scores ops p scores b in
      All-take _ (2 * p.num_beams) _ (
        All-sort_by _ _ (iota 0 (length entry)) (
          All-iota words 0 (length entry)
            (omega (arith, length-take words (drop (b * p.num_beams * p.vocab_size) scores)))))

  -- The candidates extend beams of their own entry.
  pub next_candidate_indices-bound :
      (p : Params F) (scores : List F)
      → 0 < p.vocab_size
      → All (λ x. x < p.num_beams) (next_candidate_indices ops p scores)
  unfolding next_candidate_indices
  next_candidate_indices-bound p scores positive =
      All-rows _ _ (iota 0 p.batch_size)
        λ b. All-quotients p.vocab_size p.num_beams _ positive (entry_best-bound p scores b)

  -- A search whose buffers have their sizes and whose scorer names rows that exist.
  pub record IsReady (s : BeamSearch F) : Type 0 where
    pub valid : IsValidBeam s.sequences
    pub in_range : IsInRange ops s.params.batch_size s.params.num_beams s.scorer
    pub sized : s.sequences.batch_beam_size ≡ s.params.batch_size * s.params.num_beams
    pub some_words : 0 < s.params.vocab_size
    pub some_beams : 0 < s.params.num_beams
    pub some_entries : 0 < s.params.batch_size * s.params.num_beams

  chosen : (s : BeamSearch F) → IsReady s → InRange s.sequences s.scorer.next_beam_indices
  chosen s w r hr = rw w.sized (
      All-get_or (s.params.batch_size * s.params.num_beams) s.scorer.next_beam_indices r
        w.in_range.rows w.some_entries)

  append_next_tokens-IsReady :
      (s : BeamSearch F)
      → IsReady s
      → s.sequences.current_length < s.sequences.max_length
      → IsReady (append_next_tokens ops s)
  unfolding append_next_tokens
  append_next_tokens-IsReady s w room =
      let indices = s.scorer.next_beam_indices in
      let tokens = s.scorer.next_beam_tokens in
      record {
        valid = (append_beams-IsValidBeam s.sequences indices tokens w.valid room (chosen s w)).0;
        in_range = record {
          rows = w.in_range.rows;
          batches = w.in_range.batches;
          beams = w.in_range.beams;
        };
        sized = (append_beams_sizes s.sequences indices tokens).0 ∙ w.sized;
        some_words = w.some_words;
        some_beams = w.some_beams;
        some_entries = w.some_entries;
      }

  -- One round of a beam search: row `r` becomes the row that the scorer chose for it, with the
  -- scorer's next token behind it, the chosen row exists, and the search is ready for a next round.
  pub select_top-Moves :
      (s : BeamSearch F) (r : ℕ)
      → IsReady s
      → s.sequences.current_length < s.sequences.max_length
      → r < s.params.batch_size * s.params.num_beams
      → let t = select_top ops s in
        let source = get_or t.scorer.next_beam_indices r 0 in
        (source < s.params.batch_size * s.params.num_beams)
        × (Sequences.get_sequence t.sequences r
            ≡ Sequences.get_sequence s.sequences source ++ at t.scorer.next_beam_tokens r ∷ [])
        × IsReady t
  unfolding select_top append_next_tokens
  select_top-Moves s r w room inside =
      let p = s.params in
      let scores = add_beam_scores ops p s.scorer.next_beam_scores s.next_token_scores in
      let tokens = next_candidate_tokens ops p scores in
      let indices = next_candidate_indices ops p scores in
      let scorer =
        Scorer.process ops s.scorer s.sequences (next_scores ops p scores) tokens indices in
      let u : BeamSearch F = record s {
        next_token_scores = scores;
        next_tokens = scorer.next_beam_tokens;
        scorer = scorer;
      } in
      let ready : IsReady u = record {
        valid = w.valid;
        in_range =
            process-IsInRange ops p.batch_size p.num_beams s.scorer s.sequences
              (next_scores ops p scores) tokens indices w.in_range
              (next_candidate_indices-bound p scores w.some_words) w.some_beams;
        sized = w.sized;
        some_words = w.some_words;
        some_beams = w.some_beams;
        some_entries = w.some_entries;
      } in
      (
        All-get_or (p.batch_size * p.num_beams) scorer.next_beam_indices r ready.in_range.rows
            w.some_entries,
        get_sequence-append_beams u.sequences scorer.next_beam_indices scorer.next_beam_tokens
            w.valid room (chosen u ready) r (rw w.sized inside),
        append_next_tokens-IsReady u ready room,
      )
