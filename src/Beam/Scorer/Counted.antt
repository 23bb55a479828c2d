-- ===== src/Beam/Scorer/Counted.antt =====
-- The counter of unfinished entries of `BeamSearchScorer`, in src/beam_search_scorer.h and
-- src/beam_search_scorer.cpp.
use onnxruntime_genai_privat.Base.{
  ℕ, zero, suc, ◌+◌, ◌*◌, ◌<◌, ◌≡◌, refl, sym, ap, ◌∙◌, Bool, true, false, List, [], ◌∷◌, map, ◌==◌,
  get_or, set, length, length-set, length-replicate, replicate, for_range_inv, arith, Bool-cases,
  inl, inr,
}
use onnxruntime_genai_privat.Base.Int.{ℤ, pos}
use onnxruntime_genai_privat.Base.Float.{FloatOps}
use onnxruntime_genai_privat.Sequences
use onnxruntime_genai_privat.Sequences.{Sequences}
use onnxruntime_genai_privat.Search.Ended.{count_open, count_open-set, count_open-replicate}
use onnxruntime_genai_privat.Search.{Params}
use onnxruntime_genai_privat.Beam.Hypotheses
use onnxruntime_genai_privat.Beam.Hypotheses.{BeamHypotheses}
use onnxruntime_genai_privat.Beam.Scorer.{
  Scorer, Candidate, init, is_done, hyps_at, no_hypotheses, pad_batch, candidate, candidates,
  candidates_of, is_finished, finish, process_batch, process,
}

module _ {F : Type 0} (ops : FloatOps F) where
  abbrev pub flags : List (BeamHypotheses F) → List Bool
  flags hyps = map (λ (h : BeamHypotheses F). h.done) hyps

  length-flags : (hyps : List (BeamHypotheses F)) → length (flags hyps) ≡ length hyps
  length-flags [] = refl
  length-flags (h ∷ hyps) = ap suc (length-flags hyps)

  flags-set :
      (hyps : List (BeamHypotheses F)) (i : ℕ) (h : BeamHypotheses F)
      → flags (set hyps i h) ≡ set (flags hyps) i h.done
  flags-set [] i h = refl
  flags-set (x ∷ hyps) zero h = refl
  flags-set (x ∷ hyps) (suc i) h = ap (λ xs. x.done ∷ xs) (flags-set hyps i h)

  flags-set_same :
      (hyps : List (BeamHypotheses F)) (i : ℕ) (h : BeamHypotheses F)
      → h.done ≡ (get_or hyps i (no_hypotheses ops)).done
      → flags (set hyps i h) ≡ flags hyps
  flags-set_same [] i h e = refl
  flags-set_same (x ∷ hyps) zero h e = ap (λ d. d ∷ flags hyps) e
  flags-set_same (x ∷ hyps) (suc i) h e = ap (λ xs. x.done ∷ xs) (flags-set_same hyps i h e)

  get_or-flags :
      (hyps : List (BeamHypotheses F)) (i : ℕ)
      → (get_or hyps i (no_hypotheses ops)).done ≡ false
      → get_or (flags hyps) i false ≡ false
  get_or-flags [] i e = refl
  get_or-flags (x ∷ hyps) zero e = e
  get_or-flags (x ∷ hyps) (suc i) e = get_or-flags hyps i e

  flags-replicate : (n : ℕ) (h : BeamHypotheses F) → flags (replicate n h) ≡ replicate n h.done
  flags-replicate zero h = refl
  flags-replicate (suc n) h = ap (λ xs. h.done ∷ xs) (flags-replicate n h)

  -- The counter counts the entries that are not done.
  pub record IsCounted (s : Scorer F) : Type 0 where
    pub entries : length s.beam_hyps ≡ s.batch_size
    pub counter : s.not_done_count ≡ pos (count_open (flags s.beam_hyps))

  -- What the rounds over the candidates leave as it was.
  record Same (s t : Scorer F) : Type 0 where
    same_flags : flags t.beam_hyps ≡ flags s.beam_hyps
    same_counter : t.not_done_count ≡ s.not_done_count
    same_size : t.batch_size ≡ s.batch_size

  done-add :
      (b : BeamHypotheses F) (hypothesis : List ℤ) (score : F)
      → (Hypotheses.add ops b hypothesis score).done ≡ b.done
  unfolding Hypotheses.add
  done-add b hypothesis score = ground arith

  candidate-Same :
      (sequences : Sequences) (batch j k : ℕ) (c : Candidate ops) (s : Scorer F)
      → Same s (candidate ops sequences batch j c (s, k)).0
  unfolding candidate
  candidate-Same sequences batch j k c s =
      let source = Sequences.get_sequence sequences (batch * s.num_beams + c.index) in
      ground (
        arith,
        flags-set_same s.beam_hyps batch (Hypotheses.add ops (hyps_at ops s batch) source c.score)
            (done-add (hyps_at ops s batch) source c.score),
      )

  candidates-Same :
      (sequences : Sequences) (batch j : ℕ) (cs : List (Candidate ops)) (s : Scorer F) (k : ℕ)
      → Same s (candidates ops sequences batch j cs (s, k)).0
  unfolding candidates
  candidates-Same sequences batch j [] s k = record {
    same_flags = refl;
    same_counter = refl;
    same_size = refl;
  }
  candidates-Same sequences batch j (c ∷ cs) s k =
      let next = candidate ops sequences batch j c (s, k) in
      ground (
        arith,
        candidate-Same sequences batch j k c s,
        candidates-Same sequences batch (j + 1) cs next.0 next.1,
      )

  pad_batch-Same : (s : Scorer F) (batch : ℕ) → Same s (pad_batch ops s batch)
  unfolding pad_batch
  pad_batch-Same s batch =
      for_range_inv (λ _ t. Same s t) _ s.num_beams 0 s.num_beams s (omega arith)
        (λ k t hk w. record {
          same_flags = w.same_flags;
          same_counter = w.same_counter;
          same_size = w.same_size;
        })
        (record { same_flags = refl; same_counter = refl; same_size = refl })

  Same-IsCounted : (s t : Scorer F) → Same s t → IsCounted s → IsCounted t
  Same-IsCounted s t w v = record {
    entries =
        sym (length-flags t.beam_hyps)
        ∙ ap length w.same_flags
        ∙ length-flags s.beam_hyps
        ∙ v.entries
        ∙ sym w.same_size;
    counter = w.same_counter ∙ v.counter ∙ ap (λ xs. pos (count_open xs)) (sym w.same_flags);
  }

  finish-IsCounted :
      (s : Scorer F) (batch : ℕ)
      → IsCounted s
      → get_or (flags s.beam_hyps) batch false ≡ false
      → batch < s.batch_size
      → IsCounted (finish ops s batch)
  unfolding finish
  finish-IsCounted s batch v open' h =
      let ended : BeamHypotheses F = record (hyps_at ops s batch) { done = true } in
      let inside : batch < length (flags s.beam_hyps) =
        omega (arith, length-flags s.beam_hyps, v.entries, h) in
      let one_less = count_open-set (flags s.beam_hyps) batch inside open' in
      record {
        entries = length-set s.beam_hyps batch ended ∙ v.entries;
        counter = rw (flags-set s.beam_hyps batch ended) (ground (arith, v.counter, one_less));
      }

  process_batch-IsCounted :
      (sequences : Sequences) (scores : List F) (tokens : List ℤ) (indices : List ℕ) (batch : ℕ)
      (s : Scorer F)
      → IsCounted s
      → batch < s.batch_size
      → IsCounted (process_batch ops sequences scores tokens indices batch s)
        × ((process_batch ops sequences scores tokens indices batch s).batch_size ≡ s.batch_size)
  unfolding process_batch
  process_batch-IsCounted sequences scores tokens indices batch s v h =
      let listed = candidates_of ops scores tokens indices batch (2 * s.num_beams) in
      let t = (candidates ops sequences batch 0 listed (s, 0)).0 in
      let same = candidates-Same sequences batch 0 listed s 0 in
      let padded = pad_batch-Same s batch in
      let ended = is_finished ops (Sequences.get_sequence_length sequences) batch scores t in
      elim (Bool-cases (hyps_at ops s batch).done) [
        | inl e ↦ rw e (Same-IsCounted s _ padded v, padded.same_size)
        | inr e ↦ rw e (elim (Bool-cases ended) [
          | inl f ↦ rw f (
            finish-IsCounted t batch (Same-IsCounted s t same v)
                (ap (λ xs. get_or xs batch false) same.same_flags
                  ∙ get_or-flags s.beam_hyps batch e)
                (rw same.same_size h),
            same.same_size,
          )
          | inr f ↦ rw f (Same-IsCounted s t same v, same.same_size)
        ])
      ]

  is_done-IsCounted :
      (t : Scorer F) → IsCounted t → is_done ops t ≡ (count_open (flags t.beam_hyps) == 0)
  unfolding is_done
  is_done-IsCounted t v = rw v.counter refl

  -- `Process` keeps the agreement between the counter and the entries, whatever scores, tokens and
  -- indices it is given: the scorer is done exactly when each entry is.
  pub process-IsCounted :
      (s : Scorer F) (sequences : Sequences) (scores : List F) (tokens : List ℤ) (indices : List ℕ)
      → IsCounted s
      → let t = process ops s sequences scores tokens indices in
        IsCounted t × (is_done ops t ≡ (count_open (flags t.beam_hyps) == 0))
  unfolding process
  process-IsCounted s sequences scores tokens indices v =
      let (counted, same) =
        for_range_inv (λ _ t. IsCounted t × (t.batch_size ≡ s.batch_size)) _ s.batch_size 0
          s.batch_size s (omega arith)
          (λ k t hk w.
            let (kept, same) =
              process_batch-IsCounted sequences scores tokens indices k t w.0 (rw w.1 hk) in
            (kept, same ∙ w.1))
          (v, refl) in
      (counted, is_done-IsCounted _ counted)

  pub init-IsCounted : (p : Params F) (sequence_length : ℕ) → IsCounted (init ops p sequence_length)
  unfolding init Hypotheses.init
  init-IsCounted p sequence_length = record {
    entries = length-replicate p.batch_size _;
    counter = rw (flags-replicate p.batch_size, count_open-replicate p.batch_size) refl;
  }
