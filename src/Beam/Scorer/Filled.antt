-- ===== src/Beam/Scorer/Filled.antt =====
-- The next beams that `BeamSearchScorer::Process` (src/beam_search_scorer.cpp) chooses.
use onnxruntime_genai_privat.Base.{
  ℕ, suc, ◌+◌, ◌-◌, ◌*◌, ◌<◌, ◌≤◌, min, ◌≡◌, refl, sym, ◌∙◌, true, false, leb, List, [], ◌∷◌, map,
  ◌==◌, if◌then◌else◌, set, take, write_at, length, length-take, arith, Bool-cases, ◌⊎◌, inl, inr,
}
use onnxruntime_genai_privat.Base.Int.{ℤ}
use onnxruntime_genai_privat.Base.Float.{FloatOps}
use onnxruntime_genai_privat.Sequences
use onnxruntime_genai_privat.Sequences.{Sequences}
use onnxruntime_genai_privat.Beam.Hypotheses
use onnxruntime_genai_privat.Beam.Scorer.{
  Scorer, Candidate, is_eos, hyps_at, candidate, candidates, candidates_of, is_finished, finish,
  process_batch,
}

-- The candidates that do not end their sequence.
unfoldable pub going_on :
    {F : Type 0} (ops : FloatOps F) → ℤ → List (Candidate ops) → List (Candidate ops)
unfolding is_eos
going_on ops eos [] = []
going_on ops eos (c ∷ cs) =
    let rest = going_on ops eos cs in if is_eos ops eos c.token then rest else c ∷ rest

module _ {F : Type 0} (ops : FloatOps F) where
  -- The beams from `place` on have become those of the candidates `cs`; `filled` counts them.
  pub record Filled (s t : Scorer F) (batch place : ℕ) (cs : List (Candidate ops)) : Type 0 where
    pub scores :
        t.next_beam_scores
        ≡ write_at s.next_beam_scores place (map (λ (c : Candidate ops). c.score) cs)
    pub tokens :
        t.next_beam_tokens
        ≡ write_at s.next_beam_tokens place (map (λ (c : Candidate ops). c.token) cs)
    pub indices :
        t.next_beam_indices
        ≡ write_at s.next_beam_indices place
            (map (λ (c : Candidate ops). batch * s.num_beams + c.index) cs)
    pub same_beams : t.num_beams ≡ s.num_beams

  -- What a candidate that ends its sequence leaves as it was.
  record SameBeams (s t : Scorer F) : Type 0 where
    scores : t.next_beam_scores ≡ s.next_beam_scores
    tokens : t.next_beam_tokens ≡ s.next_beam_tokens
    indices : t.next_beam_indices ≡ s.next_beam_indices
    beams : t.num_beams ≡ s.num_beams
    eos : t.eos_token_id ≡ s.eos_token_id

  candidate-eos :
      (sequences : Sequences) (batch j k : ℕ) (c : Candidate ops) (s : Scorer F)
      → is_eos ops s.eos_token_id c.token ≡ true
      → (t : Scorer F) × SameBeams s t × (candidate ops sequences batch j c (s, k) ≡ (t, k))
  unfolding candidate
  candidate-eos sequences batch j k c s e = elim (Bool-cases (leb s.num_beams j)) [
    | inl late ↦ (
      s,
      record { scores = refl; tokens = refl; indices = refl; beams = refl; eos = refl },
      rw e (rw late refl),
    )
    | inr early ↦
        let length = Sequences.get_sequence_length sequences in
        let source = Sequences.get_sequence sequences (batch * s.num_beams + c.index) in
        (
          record s {
            hypothesis_buffer_used = s.hypothesis_buffer_used + length;
            beam_hyps =
                set s.beam_hyps batch (Hypotheses.add ops (hyps_at ops s batch) source c.score);
          },
          record { scores = refl; tokens = refl; indices = refl; beams = refl; eos = refl },
          rw e (rw early refl),
        )
  ]

  -- The state once a candidate has become beam `k` of an entry.
  abbrev with_beam : Scorer F → ℕ → ℕ → Candidate ops → Scorer F
  with_beam s batch k c = record s {
    next_beam_scores = set s.next_beam_scores (batch * s.num_beams + k) c.score;
    next_beam_tokens = set s.next_beam_tokens (batch * s.num_beams + k) c.token;
    next_beam_indices =
        set s.next_beam_indices (batch * s.num_beams + k) (batch * s.num_beams + c.index);
  }

  candidate-next :
      (sequences : Sequences) (batch j k : ℕ) (c : Candidate ops) (s : Scorer F)
      → is_eos ops s.eos_token_id c.token ≡ false
      → candidate ops sequences batch j c (s, k) ≡ (with_beam s batch k c, k + 1)
  unfolding candidate
  candidate-next sequences batch j k c s e = rw e refl

  pub candidates-Filled :
      (sequences : Sequences) (batch j k m : ℕ) (cs : List (Candidate ops)) (s : Scorer F)
      → k + suc m ≡ s.num_beams
      → let t = candidates ops sequences batch j cs (s, k) in
        Filled s t.0 batch (batch * s.num_beams + k) (take (suc m) (going_on ops s.eos_token_id cs))
        × (t.1 ≡ min s.num_beams (k + length (going_on ops s.eos_token_id cs)))
  unfolding going_on write_at candidates
  candidates-Filled sequences batch j k m [] s e = ground arith
  candidates-Filled sequences batch j k m (c ∷ cs) s e =
      elim (Bool-cases (is_eos ops s.eos_token_id c.token)) [
        | inl ends ↦
            let (t, same, step) = candidate-eos sequences batch j k c s ends in
            let (filled, count) =
              candidates-Filled sequences batch (j + 1) k m cs t (e ∙ sym same.beams) in
            let open' : (k == t.num_beams) ≡ false = ground (arith, same.beams) in
            let cs' : going_on ops t.eos_token_id cs ≡ going_on ops s.eos_token_id cs =
              rw same.eos refl in
            rw step (rw ends (rw open' (ground (arith, filled, count, same, cs'))))
        | inr goes ↦ rw (candidate-next sequences batch j k c s goes) (
            rw goes (elim (Bool-cases (k + 1 == s.num_beams)) [
              | inl full ↦
                  let last : m ≡ 0 = ground (arith, full) in
                  rw full (
                    rw last (
                      record { scores = refl; tokens = refl; indices = refl; same_beams = refl },
                      omega (arith, last),
                    ))
              | inr open' ↦
                  let (filled, count) =
                    candidates-Filled sequences batch (j + 1) (k + 1) (m - 1) cs
                      (with_beam s batch k c) (ground (arith, open')) in
                  let more : m ≡ suc (m - 1) = ground (arith, open') in
                  let place : batch * s.num_beams + k + 1 ≡ batch * s.num_beams + (k + 1) =
                    omega arith in
                  rw open' (
                    rw more (
                      record {
                        scores = rw (← place) at filled.scores;
                        tokens = rw (← place) at filled.tokens;
                        indices = rw (← place) at filled.indices;
                        same_beams = filled.same_beams;
                      },
                      omega (arith, count),
                    ))
            ]))
      ]

  -- An open entry takes its candidates, and is then perhaps done.
  process_batch-open :
      (sequences : Sequences) (scores : List F) (tokens : List ℤ) (indices : List ℕ) (batch : ℕ)
      (s : Scorer F)
      → (hyps_at ops s batch).done ≡ false
      → let t = process_batch ops sequences scores tokens indices batch s in
        let listed = candidates_of ops scores tokens indices batch (2 * s.num_beams) in
        let u = (candidates ops sequences batch 0 listed (s, 0)).0 in
        (t ≡ u) ⊎ (t ≡ finish ops u batch)
  unfolding process_batch
  process_batch-open sequences scores tokens indices batch s open' =
      let listed = candidates_of ops scores tokens indices batch (2 * s.num_beams) in
      let u = (candidates ops sequences batch 0 listed (s, 0)).0 in
      let ended = is_finished ops (Sequences.get_sequence_length sequences) batch scores u in
      rw open' (elim (Bool-cases ended) [ inl e ↦ inr (rw e refl) | inr e ↦ inl (rw e refl) ])

  finish-Filled :
      (s t : Scorer F) (batch place : ℕ) (cs : List (Candidate ops))
      → Filled s t batch place cs
      → Filled s (finish ops t batch) batch place cs
  unfolding finish
  finish-Filled s t batch place cs w = record {
    scores = w.scores;
    tokens = w.tokens;
    indices = w.indices;
    same_beams = w.same_beams;
  }

  -- An entry that is not done, and of whose candidates at least `num_beams` do not end their
  -- sequence, gets the first `num_beams` of these as its next beams, in their order, with their
  -- scores, tokens and source rows; the beams of the other entries keep theirs.
  pub process_batch-Filled :
      (sequences : Sequences) (scores : List F) (tokens : List ℤ) (indices : List ℕ) (batch : ℕ)
      (s : Scorer F)
      → (hyps_at ops s batch).done ≡ false
      → 0 < s.num_beams
      → let listed = candidates_of ops scores tokens indices batch (2 * s.num_beams) in
        let going = going_on ops s.eos_token_id listed in
        s.num_beams ≤ length going
        → Filled s
            (process_batch ops sequences scores tokens indices batch s)
            batch
            (batch * s.num_beams)
            (take s.num_beams going)
          × (length (take s.num_beams going) ≡ s.num_beams)
  process_batch-Filled sequences scores tokens indices batch s open' positive enough =
      let listed = candidates_of ops scores tokens indices batch (2 * s.num_beams) in
      let some' : suc (s.num_beams - 1) ≡ s.num_beams = omega (arith, positive) in
      let place : batch * s.num_beams + 0 ≡ batch * s.num_beams = omega arith in
      let filled = rw place at (
        rw some' at
          (candidates-Filled sequences batch 0 0 (s.num_beams - 1) listed s
            (omega (arith, positive))).0) in
      (
        elim (process_batch-open sequences scores tokens indices batch s open') [
          | inl e ↦ rw e filled
          | inr e ↦ rw e (finish-Filled s _ batch _ _ filled)
        ],
        omega (arith, enough, length-take s.num_beams (going_on ops s.eos_token_id listed)),
      )
