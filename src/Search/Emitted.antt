-- ===== src/Search/Emitted.antt =====
-- Which tokens a step of a greedy search appends to its rows.
use onnxruntime_genai_privat.Base.{
  ℕ, ◌+◌, ◌*◌, ◌≤◌, ◌<◌, ◌≡◌, refl, ◌∙◌, true, false, List, [], ◌∷◌, ◌++◌, if◌then◌else◌, get_or,
  set, length, length-set, for_range, for_range_inv, arith, Bool-cases, inl, inr, get_or-set,
  dec_lt,
}
use onnxruntime_genai_privat.Base.Int.{ℤ, pos, beq_ℤ}
use onnxruntime_genai_privat.Sequences.{at, get_sequence}
use onnxruntime_genai_privat.Sequences.Rows.{IsValid, get_sequence-append_tokens}
use onnxruntime_genai_privat.Search.{
  GreedySearch, set_next_token, append_next_tokens, choose_round, choose_tokens,
}

module _ {F G : Type 0} where
  -- The buffers have one place for each batch entry.
  pub record IsSized (s : GreedySearch F G) : Type 0 where
    pub tokens : length s.next_tokens ≡ s.params.batch_size
    pub flags : length s.eos_seen ≡ s.params.batch_size

  -- Entry `r` of `t` got its token from the state `s`: an ended entry is padded, another one gets
  -- a token that `Q` allows and ends if that is the end token.
  pub record Emits (Q : ℕ → ℤ → Type 0) (s t : GreedySearch F G) (r : ℕ) : Type 0 where
    pub padded :
        get_or s.eos_seen r false ≡ true
        → (at t.next_tokens r ≡ s.params.pad_token_id) × (get_or t.eos_seen r false ≡ true)
    pub chosen :
        get_or s.eos_seen r false ≡ false
        → Q r (at t.next_tokens r)
          × (get_or t.eos_seen r false ≡ beq_ℤ (at t.next_tokens r) s.params.eos_token_id)

  -- It is about the token and the flag of the entry only.
  Emits-same :
      (Q : ℕ → ℤ → Type 0) (s t u : GreedySearch F G) (r : ℕ)
      → at u.next_tokens r ≡ at t.next_tokens r
      → get_or u.eos_seen r false ≡ get_or t.eos_seen r false
      → Emits Q s t r
      → Emits Q s u r
  Emits-same Q s t u r p q m = record {
    padded = λ e. rw (p, q) (m.padded e);
    chosen = λ e. rw (p, q) (m.chosen e);
  }

  -- What `SetNextToken` leaves in each field.
  record TokenSet (s t : GreedySearch F G) (b : ℕ) (token : ℤ) : Type 0 where
    params : t.params ≡ s.params
    sequences : t.sequences ≡ s.sequences
    tokens : t.next_tokens ≡ set s.next_tokens b token
    flags :
        t.eos_seen
        ≡ (if beq_ℤ token s.params.eos_token_id then set s.eos_seen b true else s.eos_seen)

  scores-set_next_token :
      (s : GreedySearch F G) (b : ℕ) (token : ℤ)
      → (set_next_token s b token).next_token_scores ≡ s.next_token_scores
  unfolding set_next_token
  scores-set_next_token s b token = ground arith

  set_next_token-TokenSet :
      (s : GreedySearch F G) (b : ℕ) (token : ℤ) → TokenSet s (set_next_token s b token) b token
  unfolding set_next_token
  set_next_token-TokenSet s b token = ground arith

-- Everything that a step needs: room for one more token, and a row of scores for each entry.
pub record IsReady {F G : Type 0} (s : GreedySearch F G) : Type 0 where
  pub sized : IsSized s
  pub valid : IsValid s.sequences
  pub rows : s.sequences.batch_beam_size ≡ s.params.batch_size
  pub room : s.sequences.current_length < s.sequences.max_length
  pub scored : length s.next_token_scores ≡ s.params.batch_size * s.params.vocab_size

-- The row of entry `r` grows by one token: the padding token if the entry has ended, and otherwise
-- one that `Q` allows; the entry has then ended exactly when that is the end token.
abbrev pub Appends :
    {F G : Type 0} → (ℤ → Type 0) → GreedySearch F G → GreedySearch F G → ℕ → Type 0
Appends Q s t r =
    (token : ℤ) × (get_sequence t.sequences r ≡ get_sequence s.sequences r ++ token ∷ [])
    × (get_or s.eos_seen r false ≡ true
        → (token ≡ s.params.pad_token_id) × (get_or t.eos_seen r false ≡ true))
    × (get_or s.eos_seen r false ≡ false
        → Q token × (get_or t.eos_seen r false ≡ beq_ℤ token s.params.eos_token_id))

-- `Q` relates an entry to the tokens that may be chosen for it; `I k` holds of the scores when the
-- entries before `k` are through.
module _ {F G : Type 0} (s : GreedySearch F G) (choose : ℕ → List F → G → ℤ × List F × G)
    (Q : ℕ → ℤ → Type 0) (I : ℕ → List F → Type 0)
    (keeps : (b : ℕ) (scores : List F) (gen : G)
      → b < s.params.batch_size
      → I b scores
      → (Q b (choose b scores gen).0) × I (b + 1) (choose b scores gen).1)
    (skips : (b : ℕ) (scores : List F) → I b scores → I (b + 1) scores) where
  -- The state after `k` rounds.
  record Emitted (k : ℕ) (t : GreedySearch F G) : Type 0 where
    params : t.params ≡ s.params
    sequences : t.sequences ≡ s.sequences
    tokens : length t.next_tokens ≡ s.params.batch_size
    flags : length t.eos_seen ≡ s.params.batch_size
    scores : I k t.next_token_scores
    earlier : (r : ℕ) → r < k → Emits Q s t r
    later : (r : ℕ) → k ≤ r → get_or t.eos_seen r false ≡ get_or s.eos_seen r false

  Emitted-pad :
      (k : ℕ) (t : GreedySearch F G)
      → k < s.params.batch_size
      → Emitted k t
      → get_or t.eos_seen k false ≡ true
      → Emitted (k + 1) (record t { next_tokens = set t.next_tokens k t.params.pad_token_id })
  Emitted-pad k t hk w e = record {
    params = w.params;
    sequences = w.sequences;
    tokens = length-set t.next_tokens k t.params.pad_token_id ∙ w.tokens;
    flags = w.flags;
    scores = skips k t.next_token_scores w.scores;
    earlier = λ r hr. elim (dec_lt r k) [
      | yes before ↦
          Emits-same Q s t _ r
            (ground (arith, get_or-set t.next_tokens k r t.params.pad_token_id (pos 0))) refl
            (w.earlier r before)
      | no after ↦
          let same : r ≡ k = omega arith in
          record {
            padded = λ seen. (
              ground (
                arith,
                w.params,
                w.tokens,
                get_or-set t.next_tokens k r t.params.pad_token_id (pos 0),
              ),
              rw same e,
            );
            chosen = λ opened. absurd (ground (arith, w.later k));
          }
    ];
    later = λ r hr. w.later r (omega arith);
  }

  Emitted-token :
      (k : ℕ) (t u : GreedySearch F G) (token : ℤ)
      → k < s.params.batch_size
      → Emitted k t
      → get_or t.eos_seen k false ≡ false
      → Q k token
      → I (k + 1) u.next_token_scores
      → TokenSet t u k token
      → Emitted (k + 1) u
  Emitted-token k t u token hk w e allowed scores set' = record {
    params = set'.params ∙ w.params;
    sequences = set'.sequences ∙ w.sequences;
    tokens = ground (arith, set'.tokens, w.tokens, length-set t.next_tokens k token);
    flags = ground (arith, set'.flags, w.flags, length-set t.eos_seen k true);
    scores = scores;
    earlier = λ r hr. elim (dec_lt r k) [
      | yes before ↦
          Emits-same Q s t u r
            (ground (arith, set'.tokens, get_or-set t.next_tokens k r token (pos 0)))
            (ground (arith, set'.flags, get_or-set t.eos_seen k r true false)) (w.earlier r before)
      | no after ↦
          let same : r ≡ k = omega arith in
          let written : at u.next_tokens k ≡ token =
            ground (arith, set'.tokens, w.tokens, get_or-set t.next_tokens k k token (pos 0)) in
          record {
            padded = λ seen. absurd (ground (arith, w.later k));
            chosen = λ opened.
                rw (same, written)
                  (
                    allowed,
                    ground (
                      arith,
                      set'.flags,
                      w.params,
                      w.flags,
                      get_or-set t.eos_seen k k true false,
                    ),
                  );
          }
    ];
    later = λ r hr. ground (arith, set'.flags, w.later r, get_or-set t.eos_seen k r true false);
  }

  Emitted-round :
      (k : ℕ) (t : GreedySearch F G)
      → k < s.params.batch_size
      → Emitted k t
      → Emitted (k + 1) (choose_round choose k t)
  unfolding choose_round
  Emitted-round k t hk w =
      let (token, scores, gen) = choose k t.next_token_scores t.gen in
      let (allowed, next) = keeps k t.next_token_scores t.gen hk w.scores in
      let chosen = record t { next_token_scores = scores; gen = gen } in
      let written = set_next_token-TokenSet chosen k token in
      elim (Bool-cases (get_or t.eos_seen k false)) [
        | inl e ↦ rw e (Emitted-pad k t hk w e)
        | inr e ↦ rw e (
            Emitted-token k t (set_next_token chosen k token) token hk w e allowed
              (rw (scores-set_next_token chosen k token) next)
              (record {
                params = written.params;
                sequences = written.sequences;
                tokens = written.tokens;
                flags = written.flags;
              }))
      ]

  Emitted-end :
      IsSized s
      → I 0 s.next_token_scores
      → Emitted s.params.batch_size (for_range s.params.batch_size 0 (choose_round choose) s)
  Emitted-end sized scores =
      for_range_inv Emitted _ s.params.batch_size 0 s.params.batch_size s (omega arith)
        Emitted-round
        (record {
          params = refl;
          sequences = refl;
          tokens = sized.tokens;
          flags = sized.flags;
          scores = scores;
          earlier = λ r hr. elim hr [ ];
          later = λ r hr. refl;
        })

  -- A step appends one token to each row.
  pub choose_tokens-Appends :
      (r : ℕ)
      → IsReady s
      → I 0 s.next_token_scores
      → r < s.params.batch_size
      → Appends (Q r) s (choose_tokens choose s) r
  unfolding choose_tokens append_next_tokens
  choose_tokens-Appends r ready scores hr =
      let looped = for_range s.params.batch_size 0 (choose_round choose) s in
      let w = Emitted-end ready.sized scores in
      let emits = w.earlier r hr in
      (
        at looped.next_tokens r,
        rw w.sequences (
            get_sequence-append_tokens s.sequences looped.next_tokens ready.valid ready.room r
              (rw ready.rows hr)),
        emits.padded,
        emits.chosen,
      )
