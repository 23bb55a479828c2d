-- ===== src/Search/Ended.antt =====
-- When a greedy search is done: the counter of unfinished entries agrees with the flags.
use onnxruntime_genai_privat.Base.{
  ℕ, zero, suc, ◌+◌, ◌<◌, ◌≡◌, refl, ap, ◌∙◌, Bool, true, false, ◌||◌, List, [], ◌∷◌, ◌==◌,
  if◌then◌else◌, get_or, set, length, length-set, length-replicate, replicate, for_range,
  for_range_inv, arith, Bool-cases, inl, inr,
}
use onnxruntime_genai_privat.Base.Int.{ℤ, pos}
use onnxruntime_genai_privat.Sequences
use onnxruntime_genai_privat.Sequences.{Sequences}
use onnxruntime_genai_privat.Base.Float.{FloatOps}
use onnxruntime_genai_privat.Search.Sampling.{
  choose_top, choose_top_p, choose_top_k_top_p, select_top, sample_top_p, sample_top_k_top_p,
}
use onnxruntime_genai_privat.Search.{
  Params, Sampler, GreedySearch, init, set_next_token, append_next_tokens, choose_round,
  choose_tokens,
}

-- The entries that have not ended.
unfoldable pub count_open : List Bool → ℕ
count_open [] = 0
count_open (seen ∷ rest) = (if seen then 0 else 1) + count_open rest

pub count_open-set :
    (xs : List Bool) (i : ℕ)
    → i < length xs
    → get_or xs i false ≡ false
    → count_open xs ≡ suc (count_open (set xs i true))
unfolding count_open
count_open-set [] i h e = elim h [ ]
count_open-set (x ∷ xs) zero h e = ground arith
count_open-set (x ∷ xs) (suc i) h e = ground (arith, count_open-set xs i)

pub count_open-replicate : (n : ℕ) → count_open (replicate n false) ≡ n
unfolding count_open
count_open-replicate zero = refl
count_open-replicate (suc n) = omega (arith, count_open-replicate n)

module _ {F G : Type 0} where
  -- The counter counts the open entries, and the search is done when there is none.
  pub record IsCounted (s : GreedySearch F G) : Type 0 where
    pub entries : length s.eos_seen ≡ s.params.batch_size
    pub counter : s.not_done_count ≡ pos (count_open s.eos_seen)
    pub finished : s.done ≡ (count_open s.eos_seen == 0)

  set_next_token-IsCounted :
      (s : GreedySearch F G) (b : ℕ) (token : ℤ)
      → IsCounted s
      → b < s.params.batch_size
      → get_or s.eos_seen b false ≡ false
      → IsCounted (set_next_token s b token)
  unfolding set_next_token
  set_next_token-IsCounted s b token v h e =
      ground (arith, count_open-set s.eos_seen b, length-set s.eos_seen b true)

  -- What a step leaves of the counter and the flags.
  pub record IsStep (s t : GreedySearch F G) : Type 0 where
    pub counter : t.not_done_count ≡ pos (count_open t.eos_seen)
    pub done_iff : t.done ≡ (
        (count_open t.eos_seen == 0)
        || (Sequences.get_sequence_length t.sequences == s.params.max_length))
    pub entries : length t.eos_seen ≡ t.params.batch_size

module _ {F G : Type 0} (choose : ℕ → List F → G → ℤ × List F × G) where
  pub params-choose_round :
      (b : ℕ) (s : GreedySearch F G)
      → ((choose_round choose b s).params ≡ s.params)
        × ((choose_round choose b s).sequences ≡ s.sequences)
        × (length (choose_round choose b s).next_tokens ≡ length s.next_tokens)
  unfolding choose_round
  params-choose_round b s = ground (
    arith,
    length-set s.next_tokens b s.params.pad_token_id,
    length-set s.next_tokens b (choose b s.next_token_scores s.gen).0,
  )

  choose_round-IsCounted :
      (b : ℕ) (s : GreedySearch F G)
      → IsCounted s
      → b < s.params.batch_size
      → IsCounted (choose_round choose b s)
  unfolding choose_round
  choose_round-IsCounted b s v h =
      let (token, scores, gen) = choose b s.next_token_scores s.gen in
      elim (Bool-cases (get_or s.eos_seen b false)) [
        | inl ended ↦ ground arith
        | inr open' ↦ rw open' (
            set_next_token-IsCounted (record s { next_token_scores = scores; gen = gen }) b token
              (record { entries = v.entries; counter = v.counter; finished = v.finished }) h open')
      ]

  -- The facts that every round of the loop keeps.
  record Kept (s t : GreedySearch F G) : Type 0 where
    is_counted : IsCounted t
    same_params : t.params ≡ s.params
    same_sequences : t.sequences ≡ s.sequences
    same_length : length t.next_tokens ≡ length s.next_tokens

  Kept-end :
      (s : GreedySearch F G)
      → IsCounted s
      → Kept s (for_range s.params.batch_size 0 (choose_round choose) s)
  Kept-end s v =
      for_range_inv (λ _ t. Kept s t) _ s.params.batch_size 0 s.params.batch_size s (omega arith)
        (λ k t hk w.
          let same = params-choose_round k t in
          record {
            is_counted =
                choose_round-IsCounted k t w.is_counted
                  (rw (ap (λ (p : Params F). p.batch_size) w.same_params) hk);
            same_params = same.0 ∙ w.same_params;
            same_sequences = same.1 ∙ w.same_sequences;
            same_length = same.2 ∙ w.same_length;
          })
        (record { is_counted = v; same_params = refl; same_sequences = refl; same_length = refl })

  choose_tokens-IsStep : (s : GreedySearch F G) → IsCounted s → IsStep s (choose_tokens choose s)
  unfolding choose_tokens append_next_tokens
  choose_tokens-IsStep s v =
      let w = Kept-end s v in
      let same = ap (λ (p : Params F). p.max_length) w.same_params in
      record {
        counter = ground (arith, w.is_counted, same);
        done_iff = ground (arith, w.is_counted, same);
        entries = w.is_counted.entries;
      }

-- From a counter that counts the open entries, each of SelectTop, SampleTopP and SampleTopKTopP of a
-- greedy search, which ask whether an entry has ended, leaves such a counter and a flag for each
-- entry, and the search is done exactly when no entry is open or the rows have the maximal length.
pub greedy_steps-IsStep :
    {F G : Type 0} (ops : FloatOps F) (rng : Sampler F G) (s : GreedySearch F G)
    → IsCounted s
    → IsStep s (select_top ops rng s)
      × ((top_p temperature : F) → IsStep s (sample_top_p ops rng top_p temperature s))
      × ((k : ℕ) (top_p temperature : F)
          → IsStep s (sample_top_k_top_p ops rng k top_p temperature s))
unfolding select_top sample_top_p sample_top_k_top_p
greedy_steps-IsStep ops rng s v = (
  choose_tokens-IsStep (choose_top ops rng s.params) s v,
  λ top_p temperature. choose_tokens-IsStep (choose_top_p ops rng top_p temperature s.params) s v,
  λ k top_p temperature.
      choose_tokens-IsStep (choose_top_k_top_p ops rng k top_p temperature s.params) s v,
)

pub init-IsCounted :
    {F G : Type 0} (p : Params F) (gen : G) → 0 < p.batch_size → IsCounted (init p gen)
unfolding init
init-IsCounted p gen h =
    ground (arith, count_open-replicate p.batch_size, length-replicate p.batch_size false)
