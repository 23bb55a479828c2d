-- ===== src/Models/Logits/EndTokens.antt =====
-- The end tokens of a configuration are made one: the primary one gets the best of their scores.
use onnxruntime_genai_privat.Base.{
  ℕ, zero, suc, ◌<◌, ◌≡◌, ◌≢◌, ◌⊎◌, inl, inr, refl, ◌∙◌, false, some, List, [], ◌∷◌, All, length,
  length-set, get_elem?, get_or-set, set, ◌==◌, ==_iff, Bool-cases, if◌then◌else◌, arith,
}
use onnxruntime_genai_privat.Base.Int.{pos}
use onnxruntime_genai_privat.Base.Float.{FloatOps}
use onnxruntime_genai_privat.Std.Sorted.{IsStrictWeak, irrefl}
use onnxruntime_genai_privat.Search.Sampling.{score}
use onnxruntime_genai_privat.Models.Logits.{larger, take_eos, handle_eos_row}

module _ {F : Type 0} (ops : FloatOps F) where
  -- A score after one write.
  score-set :
      (logits : List F) (i t : ℕ) (v : F)
      → i < length logits
      → score ops (set logits i v) t ≡ (if i == t then v else score ops logits t)
  score-set logits i t v lt = ground (arith, get_or-set logits i t v (ops.of_int (pos 0)))

  pub length-take_eos :
      (ids : List ℕ) (max : F) (logits : List F)
      → length (take_eos ops ids max logits).1 ≡ length logits
  unfolding take_eos
  length-take_eos [] max logits = refl
  length-take_eos (id ∷ ids) max logits =
      length-take_eos ids _ (set logits id ops.lowest) ∙ length-set logits id ops.lowest

  -- Other tokens keep their scores.
  take_eos-other :
      (ids : List ℕ) (max : F) (logits : List F) (t : ℕ)
      → All (λ id. id < length logits) ids
      → All (λ id. id ≢ t) ids
      → score ops (take_eos ops ids max logits).1 t ≡ score ops logits t
  unfolding take_eos
  take_eos-other [] max logits t small other = refl
  take_eos-other (id ∷ ids) max logits t small other =
      let apart : (id == t) ≡ false = ground (arith, other.0) in
      take_eos-other ids _ (set logits id ops.lowest) t
        (rw (length-set logits id ops.lowest) small.1) other.1
      ∙ (score-set logits id t ops.lowest small.0 ∙ rw apart)

  -- A lowest score stays the lowest.
  take_eos-lowest :
      (ids : List ℕ) (max : F) (logits : List F) (t : ℕ)
      → All (λ id. id < length logits) ids
      → score ops logits t ≡ ops.lowest
      → score ops (take_eos ops ids max logits).1 t ≡ ops.lowest
  unfolding take_eos
  take_eos-lowest [] max logits t small low = low
  take_eos-lowest (id ∷ ids) max logits t small low =
      take_eos-lowest ids _ (set logits id ops.lowest) t
        (rw (length-set logits id ops.lowest) small.1)
        (score-set logits id t ops.lowest small.0 ∙ either)
    where
      either : (if id == t then ops.lowest else score ops logits t) ≡ ops.lowest
      either = elim (Bool-cases (id == t)) [ inl e ↦ rw e | inr e ↦ rw e low ]

  take_eos-taken :
      (ids : List ℕ) (max : F) (logits : List F) (k t : ℕ)
      → All (λ id. id < length logits) ids
      → get_elem? ids k ≡ some t
      → score ops (take_eos ops ids max logits).1 t ≡ ops.lowest
  unfolding take_eos
  take_eos-taken [] max logits k t small at = absurd cc
  take_eos-taken (id ∷ ids) max logits zero t small at =
      let same : id ≡ t = cc at in
      let whole = length-set logits id ops.lowest in
      take_eos-lowest ids _ (set logits id ops.lowest) t (rw whole small.1)
        (score-set logits id t ops.lowest small.0 ∙ rw ((==_iff id t).1 same))
  take_eos-taken (id ∷ ids) max logits (suc k) t small at =
      take_eos-taken ids _ (set logits id ops.lowest) k t
        (rw (length-set logits id ops.lowest) small.1) at

  module _ (order : IsStrictWeak ops.ltf) where
    larger-left : (a b : F) → ops.ltf (larger ops a b) a ≡ false
    larger-left a b = elim (Bool-cases (ops.ltf a b)) [
      | inl e ↦ rw e (order.asymm a b e)
      | inr e ↦ rw e (irrefl ops.ltf order a)
    ]

    larger-right : (a b : F) → ops.ltf (larger ops a b) b ≡ false
    larger-right a b = elim (Bool-cases (ops.ltf a b)) [
      | inl e ↦ rw e (irrefl ops.ltf order b)
      | inr e ↦ rw e e
    ]

    -- The largest score is not less than what it was before.
    take_eos-grows :
        (ids : List ℕ) (max : F) (logits : List F)
        → ops.ltf (take_eos ops ids max logits).0 max ≡ false
    unfolding take_eos
    take_eos-grows [] max logits = irrefl ops.ltf order max
    take_eos-grows (id ∷ ids) max logits =
        order.not_trans _ _ _
          (take_eos-grows ids (larger ops max (score ops logits id)) (set logits id ops.lowest))
          (larger-left max (score ops logits id))

    take_eos-first :
        (id : ℕ) (ids : List ℕ) (max : F) (logits : List F)
        → ops.ltf (take_eos ops (id ∷ ids) max logits).0 (score ops logits id) ≡ false
    unfolding take_eos
    take_eos-first id ids max logits =
        order.not_trans _ _ _
          (take_eos-grows ids (larger ops max (score ops logits id)) (set logits id ops.lowest))
          (larger-right max (score ops logits id))

    -- ... nor than any of the scores of the end tokens.
    take_eos-bounds :
        (ids : List ℕ) (max : F) (logits : List F) (k t : ℕ)
        → All (λ id. id < length logits) ids
        → get_elem? ids k ≡ some t
        → ops.ltf (take_eos ops ids max logits).0 (score ops logits t) ≡ false
    unfolding take_eos
    take_eos-bounds [] max logits k t small at = absurd cc
    take_eos-bounds (id ∷ ids) max logits zero t small at =
        let same : id ≡ t = cc at in rw (← same) (take_eos-first id ids max logits)
    take_eos-bounds (id ∷ ids) max logits (suc k) t small at = elim (Bool-cases (id == t)) [
      | inl e ↦ rw (← (==_iff id t).0 e) (take_eos-first id ids max logits)
      | inr e ↦
          let later =
            take_eos-bounds ids (larger ops max (score ops logits id)) (set logits id ops.lowest) k
              t (rw (length-set logits id ops.lowest) small.1) at in
          let kept = score-set logits id t ops.lowest small.0 ∙ rw e in rw kept at later
    ]

  -- Where a largest score comes from.
  abbrev Source : List ℕ → List F → F → Type 0
  Source ids logits v =
      (v ≡ ops.lowest) ⊎ ((k : ℕ) × (t : ℕ) × (get_elem? ids k ≡ some t) × (v ≡ score ops logits t))

  take_eos-Source :
      (ids : List ℕ) (max : F) (logits : List F)
      → All (λ id. id < length logits) ids
      → ((take_eos ops ids max logits).0 ≡ max) ⊎ Source ids logits (take_eos ops ids max logits).0
  unfolding take_eos
  take_eos-Source [] max logits small = inl refl
  take_eos-Source (id ∷ ids) max logits small = step (
      take_eos-Source ids (larger ops max (score ops logits id)) (set logits id ops.lowest)
        (rw (length-set logits id ops.lowest) small.1))
    where
      step :
          {v : F}
          → (v ≡ larger ops max (score ops logits id)) ⊎ Source ids (set logits id ops.lowest) v
          → (v ≡ max) ⊎ Source (id ∷ ids) logits v
      step (inl e) = elim (Bool-cases (ops.ltf max (score ops logits id))) [
        | inl up ↦ inr (inr (0, id, refl, e ∙ rw up))
        | inr down ↦ inl (e ∙ rw down)
      ]
      step (inr (inl e)) = inr (inl e)
      step (inr (inr (k, t, at, e))) = elim (Bool-cases (id == t)) [
        | inl same ↦ inr (inl (e ∙ (score-set logits id t ops.lowest small.0 ∙ rw same)))
        | inr other ↦
            inr (inr (suc k, t, at, e ∙ (score-set logits id t ops.lowest small.0 ∙ rw other)))
      ]

  -- What HandleEOSArray leaves of one row: the primary end token has the largest of the end tokens'
  -- scores, the other end tokens have the lowest score, and the remaining tokens keep theirs.
  pub record EosHandled (eos_token_id : ℕ) (ids : List ℕ) (before after : List F) : Type 0 where
    pub bounds :
        (k t : ℕ)
        → get_elem? ids k ≡ some t
        → ops.ltf (score ops after eos_token_id) (score ops before t) ≡ false
    pub reached : Source ids before (score ops after eos_token_id)
    pub lowered :
        (k t : ℕ) → get_elem? ids k ≡ some t → eos_token_id ≢ t → score ops after t ≡ ops.lowest
    pub others :
        (t : ℕ) → eos_token_id ≢ t → All (λ id. id ≢ t) ids → score ops after t ≡ score ops before t

  -- If the order of the floats is a strict weak one, and the end tokens are tokens of the row,
  -- one round of the loop of HandleEOSArray makes them one.
  pub handle_eos_row-EosHandled :
      (eos_token_id : ℕ) (ids : List ℕ) (logits : List F)
      → IsStrictWeak ops.ltf
      → eos_token_id < length logits
      → All (λ id. id < length logits) ids
      → EosHandled eos_token_id ids logits (handle_eos_row ops eos_token_id ids logits)
  unfolding handle_eos_row
  handle_eos_row-EosHandled eos_token_id ids logits order primary small = record {
    bounds = λ k t at. rw written (take_eos-bounds order ids ops.lowest logits k t small at);
    reached = rw written (settled (take_eos-Source ids ops.lowest logits small));
    lowered = λ k t at ne. kept t ne ∙ take_eos-taken ids ops.lowest logits k t small at;
    others = λ t ne other. kept t ne ∙ take_eos-other ids ops.lowest logits t small other;
  }
    where
      taken : F × List F
      taken = take_eos ops ids ops.lowest logits

      inside : eos_token_id < length taken.1
      inside = rw (length-take_eos ids ops.lowest logits) primary

      written : score ops (set taken.1 eos_token_id taken.0) eos_token_id ≡ taken.0
      written =
          score-set taken.1 eos_token_id eos_token_id taken.0 inside
          ∙ rw ((==_iff eos_token_id eos_token_id).1 refl)

      kept :
          (t : ℕ)
          → eos_token_id ≢ t
          → score ops (set taken.1 eos_token_id taken.0) t ≡ score ops taken.1 t
      kept t ne =
          let apart : (eos_token_id == t) ≡ false = ground arith in
          score-set taken.1 eos_token_id t taken.0 inside ∙ rw apart

      settled : {v : F} → (v ≡ ops.lowest) ⊎ Source ids logits v → Source ids logits v
      settled (inl e) = inl e
      settled (inr s) = s
