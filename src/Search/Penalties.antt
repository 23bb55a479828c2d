-- ===== src/Search/Penalties.antt =====
-- What the scoring features of src/search.cpp do to a score.
use onnxruntime_genai_privat.Base.{
  ℕ, ◌+◌, ◌*◌, ◌<◌, ◌≤◌, ◌≡◌, refl, ap, ◌∙◌, sym, false, ◌&&◌, List, [], ◌∷◌, if◌then◌else◌,
  get_elem?, length, length-set, write_at, length-write_at, for_range, for_range_inv, arith,
  Bool-cases, inl, inr, row_le, cell_lt, get_elem?-write_row, get_elem?-subspan, get_or-set,
  get_elem?-in, List-ext, drop, length-take, length-drop,
}
use onnxruntime_genai_privat.Base.Int.{ℤ, pos, negsuc, beq_ℤ, ltb_ℤ, beq_ℤ_iff}
use onnxruntime_genai_privat.Base.Float.{FloatOps}
use onnxruntime_genai_privat.Sequences
use onnxruntime_genai_privat.Sequences.{Sequences}
use onnxruntime_genai_privat.Search.{Params}
use onnxruntime_genai_privat.Search.Sampling.{score, row, zero_f}
use onnxruntime_genai_privat.Search.Scoring.{
  contains, unique, set_score, score_at, apply_min_length, penalized, penalize,
  apply_repetition_penalty,
}

contains-unique : (word : ℤ) (xs : List ℤ) → contains word (unique xs) ≡ contains word xs
unfolding contains unique
contains-unique word [] = refl
contains-unique word (x ∷ xs) =
    ground (arith, contains-unique word xs, contains-unique x xs, beq_ℤ_iff word x)

-- Each word of the list stands in it once.
AllOnce : List ℤ → Type 0
AllOnce [] = Unit
AllOnce (x ∷ xs) = (contains x xs ≡ false) × AllOnce xs

AllOnce-unique : (xs : List ℤ) → AllOnce (unique xs)
unfolding unique AllOnce
AllOnce-unique [] = tt
AllOnce-unique (x ∷ xs) = elim (Bool-cases (contains x (unique xs))) [
  | inl e ↦ rw e (AllOnce-unique xs)
  | inr e ↦ rw e (e, AllOnce-unique xs)
]

module _ {F : Type 0} (ops : FloatOps F) where
  score-set_score :
      (scores : List F) (word : ℤ) (v : F) (j : ℕ)
      → j < length scores
      → score ops (set_score ops scores word v) j
        ≡ (if beq_ℤ (pos j) word then v else score ops scores j)
  score-set_score scores (pos i) v j h = ground (arith, get_or-set scores i j v (zero_f ops))
  score-set_score scores (negsuc i) v j h = refl

  length-set_score :
      (scores : List F) (word : ℤ) (v : F) → length (set_score ops scores word v) ≡ length scores
  length-set_score scores (pos i) v = length-set scores i v
  length-set_score scores (negsuc i) v = refl

  pub length-penalize :
      (penalty : F) (words : List ℤ) (scores : List F)
      → length (penalize ops penalty words scores) ≡ length scores
  unfolding penalize
  length-penalize penalty [] scores = refl
  length-penalize penalty (word ∷ words) scores =
      length-penalize penalty words _ ∙ length-set_score scores word _

  penalize-score :
      (penalty : F) (words : List ℤ) (scores : List F) (j : ℕ)
      → AllOnce words
      → j < length scores
      → score ops (penalize ops penalty words scores) j ≡ (
          if contains (pos j) words
          then penalized ops penalty (score ops scores j)
          else score ops scores j)
  unfolding penalize contains AllOnce
  penalize-score penalty [] scores j once h = refl
  penalize-score penalty (word ∷ words) scores j once h =
      let v = penalized ops penalty (score_at ops scores word) in
      let now = set_score ops scores word v in
      let step = score-set_score scores word v j h in
      let rest =
        penalize-score penalty words now j once.1 (rw (length-set_score scores word v) h) in
      elim (Bool-cases (beq_ℤ (pos j) word)) [
        | inl e ↦
            let same : pos j ≡ word = (beq_ℤ_iff (pos j) word).0 e in
            let not_later : contains (pos j) words ≡ false =
              ap (λ w. contains w words) same ∙ once.0 in
            let here : score_at ops scores word ≡ score ops scores j =
              ap (score_at ops scores) (sym same) in
            rest ∙ rw not_later (rw e (step ∙ rw e (ap (penalized ops penalty) here)))
        | inr e ↦ rest ∙ rw e (let kept = rw e at step in rw kept refl)
      ]

  -- The state of the scores after `k` rounds of a loop that rewrites row after row.
  record Rewritten (p : Params F) (scores : List F) (become : ℕ → List F → List F) (k : ℕ)
      (now : List F) : Type 0 where
    same_size : length now ≡ length scores
    done :
        (r c : ℕ)
        → r < k
        → c < p.vocab_size
        → get_elem? now (r * p.vocab_size + c) ≡ get_elem? (become r (row ops p scores r)) c
    later :
        (r c : ℕ)
        → k ≤ r
        → c < p.vocab_size
        → get_elem? now (r * p.vocab_size + c) ≡ get_elem? scores (r * p.vocab_size + c)

module _ {F : Type 0} (ops : FloatOps F) (p : Params F) (scores : List F) (n : ℕ)
    (size : length scores ≡ n * p.vocab_size) (become : ℕ → List F → List F)
    (same : (i : ℕ) (xs : List F) → length (become i xs) ≡ length xs) where
  abbrev rewrite_row : ℕ → List F → List F
  rewrite_row i now = write_at now (i * p.vocab_size) (become i (row ops p now i))

  same_row :
      (k : ℕ) (now : List F)
      → Rewritten ops p scores become k now
      → row ops p now k ≡ row ops p scores k
  same_row k now w = List-ext _ _ λ j. ground (
    arith,
    get_elem?-subspan now (k * p.vocab_size) p.vocab_size j,
    get_elem?-subspan scores (k * p.vocab_size) p.vocab_size j,
    w.later k j,
  )

  full_row : (k : ℕ) → k < n → length (become k (row ops p scores k)) ≡ p.vocab_size
  full_row k h = omega (
    arith,
    same k (row ops p scores k),
    length-take p.vocab_size (drop (k * p.vocab_size) scores),
    length-drop (k * p.vocab_size) scores,
    size,
    row_le k n p.vocab_size h,
  )

  Rewritten-round :
      (k : ℕ) (now : List F)
      → k < n
      → Rewritten ops p scores become k now
      → Rewritten ops p scores become (k + 1) (rewrite_row k now)
  Rewritten-round k now h w =
      let vs = become k (row ops p scores k) in
      rw (same_row k now w) (record {
        same_size = length-write_at now (k * p.vocab_size) vs ∙ w.same_size;
        done = λ r c hr hc. ground (
          arith,
          w.done r c,
          w.same_size,
          size,
          full_row k h,
          row_le k n p.vocab_size h,
          get_elem?-write_row now k r c p.vocab_size vs,
        );
        later = λ r c hr hc. ground (
          arith,
          w.later r c,
          w.same_size,
          size,
          full_row k h,
          row_le k n p.vocab_size h,
          get_elem?-write_row now k r c p.vocab_size vs,
        );
      })

  Rewritten-end : Rewritten ops p scores become n (for_range n 0 rewrite_row scores)
  Rewritten-end =
      for_range_inv (Rewritten ops p scores become) _ n 0 n scores (omega arith) Rewritten-round
        (record { same_size = refl; done = λ r c hr hc. elim hr [ ]; later = λ r c hr hc. refl })

  -- A score after the loop is the one that its row has become.
  Rewritten-score :
      (i j : ℕ)
      → i < n
      → j < p.vocab_size
      → score ops (for_range n 0 rewrite_row scores) (i * p.vocab_size + j)
        ≡ score ops (become i (row ops p scores i)) j
  Rewritten-score i j hi hj =
      let now = for_range n 0 rewrite_row scores in
      let place = i * p.vocab_size + j in
      ground (
        arith,
        get_elem?-in now place (zero_f ops),
        get_elem?-in (become i (row ops p scores i)) j (zero_f ops),
        full_row i hi,
        cell_lt i n j p.vocab_size hi hj,
        Rewritten-end.same_size,
        size,
        Rewritten-end.done i j hi hj,
      )

  row-score :
      (i j : ℕ)
      → i < n
      → j < p.vocab_size
      → score ops (row ops p scores i) j ≡ score ops scores (i * p.vocab_size + j)
  row-score i j hi hj = ground (
    arith,
    get_elem?-in scores (i * p.vocab_size + j) (zero_f ops),
    get_elem?-in (row ops p scores i) j (zero_f ops),
    get_elem?-subspan scores (i * p.vocab_size) p.vocab_size j,
    same i (row ops p scores i),
    full_row i hi,
    cell_lt i n j p.vocab_size hi hj,
    size,
  )

module _ {F : Type 0} (ops : FloatOps F) (p : Params F) (sequences : Sequences) (scores : List F)
    (size : length scores ≡ p.batch_size * p.num_beams * p.vocab_size) (i j : ℕ)
    (inside : i < p.batch_size * p.num_beams) (word : j < p.vocab_size) where
  -- The repetition penalty changes the score of a token exactly when the token stands in the
  -- sequence of its row, and then once, however often it stands there.
  pub score-apply_repetition_penalty :
      (penalty : F)
      → let before = score ops scores (i * p.vocab_size + j) in
        score ops (apply_repetition_penalty ops p sequences penalty scores) (i * p.vocab_size + j)
        ≡ (if ops.eqf penalty (ops.of_int (pos 1))
            then before
            else (if contains (pos j) (Sequences.get_sequence sequences i)
                then penalized ops penalty before
                else before))
  unfolding apply_repetition_penalty
  score-apply_repetition_penalty penalty =
      elim (Bool-cases (ops.eqf penalty (ops.of_int (pos 1)))) [
        | inl e ↦ rw e refl
        | inr e ↦
            let become : ℕ → List F → List F =
              λ k xs. penalize ops penalty (unique (Sequences.get_sequence sequences k)) xs in
            let n = p.batch_size * p.num_beams in
            let same = λ (k : ℕ) (xs : List F).
              length-penalize ops penalty (unique (Sequences.get_sequence sequences k)) xs in
            let words = unique (Sequences.get_sequence sequences i) in
            rw e (
              Rewritten-score ops p scores n size become same i j inside word
              ∙ penalize-score ops penalty words (row ops p scores i) j
                  (AllOnce-unique (Sequences.get_sequence sequences i))
                  (rw (← same i (row ops p scores i))
                    (rw (full_row ops p scores n size become same i inside) word))
              ∙ rw (contains-unique (pos j) (Sequences.get_sequence sequences i))
                  (rw (row-score ops p scores n size become same i j inside word) refl))
      ]

  -- While the sequences are shorter than `min_length` the end token has the lowest score in every
  -- row; all other scores are as they were, and all scores are from then on.
  pub score-apply_min_length :
      (min_length : ℤ)
      → let before = score ops scores (i * p.vocab_size + j) in
        score ops (apply_min_length ops p sequences min_length scores) (i * p.vocab_size + j) ≡ (
          if ltb_ℤ (pos (Sequences.get_sequence_length sequences)) min_length
            && beq_ℤ (pos j) p.eos_token_id
          then ops.lowest
          else before)
  unfolding apply_min_length
  score-apply_min_length min_length =
      let become : ℕ → List F → List F = λ _ xs. set_score ops xs p.eos_token_id ops.lowest in
      let n = p.batch_size * p.num_beams in
      let same = λ (_ : ℕ) (xs : List F). length-set_score ops xs p.eos_token_id ops.lowest in
      elim (Bool-cases (ltb_ℤ (pos (Sequences.get_sequence_length sequences)) min_length)) [
        | inr e ↦ rw e refl
        | inl e ↦ rw e (
            Rewritten-score ops p scores n size become same i j inside word
            ∙ score-set_score ops (row ops p scores i) p.eos_token_id ops.lowest j (
                rw (← same i (row ops p scores i))
                  (rw (full_row ops p scores n size become same i inside) word))
            ∙ rw (row-score ops p scores n size become same i j inside word) refl)
      ]
