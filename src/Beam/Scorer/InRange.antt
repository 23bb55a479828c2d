-- ===== src/Beam/Scorer/InRange.antt =====
-- The rows that `BeamSearchScorer::Process` (src/beam_search_scorer.cpp) makes the source of the
-- next beams.
use onnxruntime_genai_privat.Base.{
  ℕ, zero, suc, ◌+◌, ◌*◌, ◌<◌, ◌≡◌, refl, ◌∙◌, List, [], ◌∷◌, map, get_or, set, leb, ◌==◌,
  for_range_inv, cell_lt, All, arith, Bool-cases, inl, inr,
}
use onnxruntime_genai_privat.Base.Int.{ℤ, pos}
use onnxruntime_genai_privat.Base.Float.{FloatOps}
use onnxruntime_genai_privat.Std.{iota}
use onnxruntime_genai_privat.Sequences
use onnxruntime_genai_privat.Sequences.{Sequences}
use onnxruntime_genai_privat.Beam.Scorer.{
  Scorer, Candidate, is_eos, hyps_at, pad_batch, candidate, candidates, candidates_of, is_finished,
  finish, process_batch, process,
}

All-set :
    (bound : ℕ) (xs : List ℕ) (i v : ℕ)
    → All (λ x. x < bound) xs
    → v < bound
    → All (λ x. x < bound) (set xs i v)
All-set bound [] i v h lt = tt
All-set bound (x ∷ xs) zero v h lt = (lt, h.1)
All-set bound (x ∷ xs) (suc i) v h lt = (h.0, All-set bound xs i v h.1 lt)

pub All-get_or :
    (bound : ℕ) (xs : List ℕ) (i : ℕ) → All (λ x. x < bound) xs → 0 < bound → get_or xs i 0 < bound
All-get_or bound [] i h lt = lt
All-get_or bound (x ∷ xs) zero h lt = h.0
All-get_or bound (x ∷ xs) (suc i) h lt = All-get_or bound xs i h.1 lt

module _ {F : Type 0} (ops : FloatOps F) where
  -- A scorer for `n` entries of `m` beams, where the source of each next beam is a row.
  pub record IsInRange (n m : ℕ) (s : Scorer F) : Type 0 where
    pub rows : All (λ i. i < n * m) s.next_beam_indices
    pub batches : s.batch_size ≡ n
    pub beams : s.num_beams ≡ m

  module _ (n m : ℕ) where
    IsInRange-set :
        (s t : Scorer F) (place v : ℕ)
        → IsInRange n m s
        → v < n * m
        → t.next_beam_indices ≡ set s.next_beam_indices place v
        → t.batch_size ≡ s.batch_size
        → t.num_beams ≡ s.num_beams
        → IsInRange n m t
    IsInRange-set s t place v w lt e same same' = record {
      rows = rw e (All-set (n * m) s.next_beam_indices place v w.rows lt);
      batches = same ∙ w.batches;
      beams = same' ∙ w.beams;
    }

    candidate-IsInRange :
        (sequences : Sequences) (batch j k : ℕ) (c : Candidate ops) (s : Scorer F)
        → IsInRange n m s
        → batch < n
        → c.index < m
        → IsInRange n m (candidate ops sequences batch j c (s, k)).0
    unfolding candidate
    candidate-IsInRange sequences batch j k c s w h lt =
        let row : batch * s.num_beams + c.index < n * m =
          rw w.beams (cell_lt batch n c.index m h lt) in
        elim (Bool-cases (is_eos ops s.eos_token_id c.token)) [
          | inl e ↦ rw e (elim (Bool-cases (leb s.num_beams j)) [
            | inl f ↦ rw f w
            | inr f ↦ rw f (record { rows = w.rows; batches = w.batches; beams = w.beams })
          ])
          | inr e ↦ rw e (IsInRange-set s _ _ _ w row refl refl refl)
        ]

    candidates-IsInRange :
        (sequences : Sequences) (batch j k : ℕ) (cs : List (Candidate ops)) (s : Scorer F)
        → IsInRange n m s
        → batch < n
        → All (λ (c : Candidate ops). c.index < m) cs
        → IsInRange n m (candidates ops sequences batch j cs (s, k)).0
    unfolding candidates
    candidates-IsInRange sequences batch j k [] s w h lt = w
    candidates-IsInRange sequences batch j k (c ∷ cs) s w h lt =
        let next = candidate ops sequences batch j c (s, k) in
        let kept = candidate-IsInRange sequences batch j k c s w h lt.0 in
        elim (Bool-cases (next.1 == next.0.num_beams)) [
          | inl e ↦ rw e kept
          | inr e ↦ rw e (candidates-IsInRange sequences batch (j + 1) next.1 cs next.0 kept h lt.1)
        ]

    pad_batch-IsInRange :
        (s : Scorer F) (batch : ℕ)
        → IsInRange n m s
        → 0 < n * m
        → IsInRange n m (pad_batch ops s batch)
    unfolding pad_batch
    pad_batch-IsInRange s batch w positive =
        for_range_inv (λ _ t. IsInRange n m t) _ s.num_beams 0 s.num_beams s (omega arith)
          (λ k t hk u. IsInRange-set t _ _ 0 u positive refl refl refl) w

    All-candidates :
        (scores : List F) (tokens : List ℤ) (indices : List ℕ) (at i count : ℕ)
        → All (λ x. x < m) indices
        → 0 < m
        → All
            (λ (c : Candidate ops). c.index < m)
            (map
              (λ j. record {
                score = get_or scores (at + j) (ops.of_int (pos 0));
                token = get_or tokens (at + j) (pos 0);
                index = get_or indices (at + j) 0;
              })
              (iota i count))
    unfolding iota
    All-candidates scores tokens indices at i zero h positive = tt
    All-candidates scores tokens indices at i (suc count) h positive = (
      All-get_or m indices (at + i) h positive,
      All-candidates scores tokens indices at (i + 1) count h positive,
    )

    process_batch-IsInRange :
        (sequences : Sequences) (scores : List F) (tokens : List ℤ) (indices : List ℕ) (batch : ℕ)
        (s : Scorer F)
        → IsInRange n m s
        → batch < n
        → All (λ x. x < m) indices
        → 0 < m
        → IsInRange n m (process_batch ops sequences scores tokens indices batch s)
    unfolding process_batch candidates_of finish
    process_batch-IsInRange sequences scores tokens indices batch s w h rows positive =
        let listed = candidates_of ops scores tokens indices batch (2 * s.num_beams) in
        let t = (candidates ops sequences batch 0 listed (s, 0)).0 in
        let kept = candidates-IsInRange sequences batch 0 0 listed s w h (
          All-candidates scores tokens indices (batch * (2 * s.num_beams)) 0 (2 * s.num_beams) rows
            positive) in
        elim (Bool-cases (hyps_at ops s batch).done) [
          | inl e ↦
              rw e (pad_batch-IsInRange s batch w (omega (arith, cell_lt batch n 0 m h positive)))
          | inr e ↦
              rw e
                (elim (Bool-cases
                  (is_finished ops (Sequences.get_sequence_length sequences) batch scores t)) [
                    | inl f ↦
                        rw f
                          (record { rows = kept.rows; batches = kept.batches; beams = kept.beams })
                    | inr f ↦ rw f kept
                  ])
        ]

    -- If the candidates name beams of their entry, `Process` makes rows that exist the source of
    -- the next beams.
    pub process-IsInRange :
        (s : Scorer F) (sequences : Sequences) (scores : List F) (tokens : List ℤ)
        (indices : List ℕ)
        → IsInRange n m s
        → All (λ x. x < m) indices
        → 0 < m
        → IsInRange n m (process ops s sequences scores tokens indices)
    unfolding process
    process-IsInRange s sequences scores tokens indices w rows positive =
        for_range_inv (λ _ t. IsInRange n m t) _ s.batch_size 0 s.batch_size s (omega arith)
          (λ k t hk u.
            process_batch-IsInRange sequences scores tokens indices k t u (rw (← w.batches) hk) rows
              positive)
          w
