-- ===== src/Search/TopK.antt =====
-- `SampleTopK` has no `PadIfAlreadyEOS`: what that does to the counter of unfinished entries.
use onnxruntime_genai_privat.Base.{
  ℕ, zero, suc, ◌≡◌, ◌≢◌, ap, sym, Bool, true, false, List, [], ◌∷◌, get_or, set, take, arith,
}
use onnxruntime_genai_privat.Base.Int.{ℤ, pos, beq_ℤ_iff}
use onnxruntime_genai_privat.Base.Float.{FloatOps}
use onnxruntime_genai_privat.Search.{Sampler, GreedySearch, set_next_token}
use onnxruntime_genai_privat.Search.Sampling.{row, softmax, ranked, top_k_round}
use onnxruntime_genai_privat.Search.Ended.{IsCounted, count_open}

set-already : (xs : List Bool) (i : ℕ) → get_or xs i false ≡ true → set xs i true ≡ xs
set-already [] i e = cc
set-already (x ∷ xs) zero e = ap (λ b. b ∷ xs) (sym e)
set-already (x ∷ xs) (suc i) e = ap (λ (ys : List Bool). x ∷ ys) (set-already xs i e)

module _ {F G : Type 0} (s : GreedySearch F G) (b : ℕ) (token : ℤ) where
  -- a second end token of an entry lowers the counter once more
  set_next_token_again :
      IsCounted s
      → get_or s.eos_seen b false ≡ true
      → token ≡ s.params.eos_token_id
      → let t = set_next_token s b token in
        (t.eos_seen ≡ s.eos_seen) × (t.not_done_count ≢ pos (count_open t.eos_seen))
  unfolding set_next_token
  set_next_token_again v ended last =
      ground
        (arith, v.counter, set-already s.eos_seen b ended, beq_ℤ_iff token s.params.eos_token_id)

-- If an entry that has ended draws the end token again, a round of `SampleTopK` ends no entry, and
-- leaves a counter that is not the number of open entries.
pub top_k_round_miscounts :
    {F G : Type 0} (ops : FloatOps F) (rng : Sampler F G) (k : ℕ) (temperature : F) (b : ℕ)
    (s : GreedySearch F G)
    → IsCounted s
    → get_or s.eos_seen b false ≡ true
    → (let probabilities = softmax ops (row ops s.params s.next_token_scores b) temperature in
        pos (get_or (ranked ops probabilities) (rng.discrete (take k probabilities) s.gen).0 0)
        ≡ s.params.eos_token_id)
    → let t = top_k_round ops rng k temperature b s in
      (t.eos_seen ≡ s.eos_seen) × (t.not_done_count ≢ pos (count_open t.eos_seen))
unfolding top_k_round
top_k_round_miscounts ops rng k temperature b s v ended last =
    set_next_token_again _ b _
      (record { entries = v.entries; counter = v.counter; finished = v.finished }) ended last
