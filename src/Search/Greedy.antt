-- ===== src/Search/Greedy.antt =====
-- What `SelectTop` and the sampling methods append to the row of an entry that has not ended.
use onnxruntime_genai_privat.Base.{
  ℕ, suc, ◌+◌, ◌*◌, ◌≤◌, ◌<◌, ◌≡◌, ◌∙◌, refl, ap, true, false, List, [], ◌∷◌, some, map, get_elem?,
  length, take, drop, write_at, All, arith, length-take, length-drop, length-write_at, List-ext,
  get_elem?-subspan, get_elem?-write_row, row_le,
}
use onnxruntime_genai_privat.Base.Int.{pos}
use onnxruntime_genai_privat.Base.Float.{FloatOps}
use onnxruntime_genai_privat.Std.Sorted.{IsStrictWeak, Largest, old, new, irrefl, max_index-Largest}
use onnxruntime_genai_privat.Search.{Params, Sampler, GreedySearch}
use onnxruntime_genai_privat.Search.Sampling.{
  row, argmax, softmax, choose_top, choose_top_k_top_p, select_top, sample_top_k_top_p,
}
use onnxruntime_genai_privat.Search.Ranked.{IsAmongTop, first_past-IsAmongTop}
use onnxruntime_genai_privat.Search.Emitted.{IsReady, Appends, choose_tokens-Appends}

-- The first index at which the highest score stands.
pub record IsArgmax {F : Type 0} (ops : FloatOps F) (scores : List F) (i : ℕ) : Type 0 where
  pub top : F
  pub here : get_elem? scores i ≡ some top
  pub highest : All (λ x. ops.ltf top x ≡ false) scores
  pub first : All (λ x. ops.ltf x top ≡ true) (take i scores)

length-row :
    {F : Type 0} (ops : FloatOps F) (p : Params F) (scores : List F) (b : ℕ)
    → length scores ≡ p.batch_size * p.vocab_size
    → b < p.batch_size
    → length (row ops p scores b) ≡ p.vocab_size
length-row ops p scores b size h = omega (
  arith,
  length-take p.vocab_size (drop (b * p.vocab_size) scores),
  length-drop (b * p.vocab_size) scores,
  size,
  row_le b p.batch_size p.vocab_size h,
)

length-map : {A B : Type 0} (f : A → B) (xs : List A) → length (map f xs) ≡ length xs
length-map f [] = refl
length-map f (x ∷ xs) = ap suc (length-map f xs)

module _ {F : Type 0} (ops : FloatOps F) (order : IsStrictWeak ops.ltf) where
  IsArgmax-cases :
      (x : F) (xs : List F) (i : ℕ) → Largest ops.ltf 0 x 1 xs i → IsArgmax ops (x ∷ xs) i
  IsArgmax-cases x xs i (old p h) =
      rw p (record { top = x; here = refl; highest = (irrefl ops.ltf order x, h); first = tt })
  IsArgmax-cases x xs i (new j v p q lt h first) =
      let e : i ≡ suc j = omega arith in
      rw e (record { top = v; here = q; highest = (order.asymm x v lt, h); first = (lt, first) })

  -- On a row with a score `argmax` is the first index of a highest score.
  pub argmax-IsArgmax :
      (scores : List F) → 0 < length scores → IsArgmax ops scores (argmax ops scores)
  unfolding argmax
  argmax-IsArgmax [] h = elim h [ ]
  argmax-IsArgmax (x ∷ xs) h = IsArgmax-cases x xs _ (max_index-Largest ops.ltf order 0 x 1 xs)

module _ {F G : Type 0} (ops : FloatOps F) (rng : Sampler F G) (s : GreedySearch F G) (r : ℕ)
    (ready : IsReady s) (inside : r < s.params.batch_size) where
  -- `SelectTop` appends the first token of the highest score.
  pub select_top-Appends :
      IsStrictWeak ops.ltf
      → 0 < s.params.vocab_size
      → Appends
          (λ token.
            (i : ℕ) × (token ≡ pos i) × IsArgmax ops (row ops s.params s.next_token_scores r) i)
          s
          (select_top ops rng s)
          r
  unfolding select_top choose_top
  select_top-Appends order words =
      let scores = s.next_token_scores in
      let (token, grown, padded, chosen) =
        choose_tokens-Appends s (choose_top ops rng s.params)
          (λ b token. token ≡ pos (argmax ops (row ops s.params scores b))) (λ _ now. now ≡ scores)
          (λ b now gen hb e. (ap (λ x. pos (argmax ops (row ops s.params x b))) e, e))
          (λ b now e. e) r ready refl inside in
      (
        token,
        grown,
        padded,
        λ opened. (
          (
            argmax ops (row ops s.params scores r),
            (chosen opened).0,
            argmax-IsArgmax ops order (row ops s.params scores r)
                (rw (length-row ops s.params scores r ready.scored inside) words),
          ),
          (chosen opened).1,
        ),
      )

module _ {F G : Type 0} (ops : FloatOps F) (s : GreedySearch F G) where
  -- The rows from `k` on hold what they held at the start.
  record RowsFrom (k : ℕ) (now : List F) : Type 0 where
    same_length : length now ≡ length s.next_token_scores
    cell :
        (r c : ℕ)
        → k ≤ r
        → c < s.params.vocab_size
        → get_elem? now (r * s.params.vocab_size + c)
          ≡ get_elem? s.next_token_scores (r * s.params.vocab_size + c)

  row-RowsFrom :
      (k : ℕ) (now : List F)
      → RowsFrom k now
      → row ops s.params now k ≡ row ops s.params s.next_token_scores k
  row-RowsFrom k now w = List-ext _ _ λ j.
      let words = s.params.vocab_size in
      ground (
        arith,
        get_elem?-subspan now (k * words) words j,
        get_elem?-subspan s.next_token_scores (k * words) words j,
        w.cell k j,
      )

  RowsFrom-write :
      (k : ℕ) (now vs : List F)
      → RowsFrom k now
      → k < s.params.batch_size
      → length s.next_token_scores ≡ s.params.batch_size * s.params.vocab_size
      → length vs ≡ s.params.vocab_size
      → RowsFrom (k + 1) (write_at now (k * s.params.vocab_size) vs)
  RowsFrom-write k now vs w hk size full = record {
    same_length = length-write_at now (k * s.params.vocab_size) vs ∙ w.same_length;
    cell = λ r c hr hc. ground (
      arith,
      w.cell r c,
      w.same_length,
      size,
      full,
      row_le k s.params.batch_size s.params.vocab_size hk,
      get_elem?-write_row now k r c s.params.vocab_size vs,
    );
  }

length-softmax :
    {F : Type 0} (ops : FloatOps F) (scores : List F) (temperature : F)
    → length (softmax ops scores temperature) ≡ length scores
unfolding softmax
length-softmax ops scores temperature = length-map _ _ ∙ length-map _ scores

module _ {F G : Type 0} (ops : FloatOps F) (rng : Sampler F G) (s : GreedySearch F G) (r : ℕ)
    (ready : IsReady s) (inside : r < s.params.batch_size) where
  -- `SampleTopKTopP` appends a token of the `k` most probable ones, whatever the engine draws.
  pub sample_top_k_top_p-Appends :
      IsStrictWeak ops.ltf
      → (k : ℕ) (top_p temperature : F) → 0 < k
      → k ≤ s.params.vocab_size
      → Appends
          (λ token.
            (i : ℕ) × (token ≡ pos i)
            × IsAmongTop ops k (softmax ops (row ops s.params s.next_token_scores r) temperature) i)
          s
          (sample_top_k_top_p ops rng k top_p temperature s)
          r
  unfolding sample_top_k_top_p choose_top_k_top_p
  sample_top_k_top_p-Appends order k top_p temperature positive fits =
      let scores = s.next_token_scores in
      choose_tokens-Appends s (choose_top_k_top_p ops rng k top_p temperature s.params)
        (λ b token.
          (i : ℕ) × (token ≡ pos i)
          × IsAmongTop ops k (softmax ops (row ops s.params scores b) temperature) i)
        (RowsFrom ops s)
        (λ b now gen hb w.
          let same = row-RowsFrom ops s b now w in
          let probabilities = softmax ops (row ops s.params now b) temperature in
          let full : length probabilities ≡ s.params.vocab_size =
            length-softmax ops (row ops s.params now b) temperature
            ∙ length-row ops s.params now b (w.same_length ∙ ready.scored) hb in
          (
            (
              _,
              refl,
              rw (← same)
                  (first_past-IsAmongTop ops order k probabilities _ positive (rw full fits)),
            ),
            RowsFrom-write ops s b now probabilities w hb ready.scored full,
          ))
        (λ b now w. record {
          same_length = w.same_length;
          cell = λ r' c hr hc. w.cell r' c (omega arith) hc;
        })
        r ready (record { same_length = refl; cell = λ r' c hr hc. refl }) inside
