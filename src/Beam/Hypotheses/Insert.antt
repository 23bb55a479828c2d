-- ===== src/Beam/Hypotheses/Insert.antt =====
-- The loop of `Add` inserts into a sorted list of hypotheses.
use onnxruntime_genai_privat.Base.{
  ℕ, zero, suc, ◌<◌, ◌≡◌, refl, ap, sym, ◌∙◌, Bool, true, false, List, [], ◌∷◌, ◌++◌, if◌then◌else◌,
  set, take, drop, length, All, All-imp, Bool-cases, inl, inr, arith, length-set, take-suc,
  take-set, set-split, drop-set, take-append_length,
}
use mathlib.Core.List.{append_assoc}
use onnxruntime_genai_privat.Base.Float.{FloatOps}
use onnxruntime_genai_privat.Std.Sorted.{IsStrictWeak, IsSorted}
use onnxruntime_genai_privat.Beam.Hypotheses.{HypothesisScore, beam_at, rotate_in}

module _ {F : Type 0} (ops : FloatOps F) where
  abbrev pub ranks_above : HypothesisScore F → HypothesisScore F → Bool
  ranks_above a b = ops.ltf b.score a.score

  -- Insertion into a list of hypotheses, best first, behind those that score the same.
  unfoldable pub insert_hypothesis :
      HypothesisScore F → List (HypothesisScore F) → List (HypothesisScore F)
  insert_hypothesis new [] = new ∷ []
  insert_hypothesis new (h ∷ hs) =
      if ops.ltf h.score new.score then new ∷ h ∷ hs else h ∷ insert_hypothesis new hs

  pub length-insert_hypothesis :
      (new : HypothesisScore F) (hs : List (HypothesisScore F))
      → length (insert_hypothesis new hs) ≡ suc (length hs)
  unfolding insert_hypothesis
  length-insert_hypothesis new [] = refl
  length-insert_hypothesis new (h ∷ hs) = ground (arith, length-insert_hypothesis new hs)

  pub insert-snoc_below :
      (new : HypothesisScore F) (hs : List (HypothesisScore F)) (h : HypothesisScore F)
      → ops.ltf h.score new.score ≡ true
      → insert_hypothesis new (hs ++ h ∷ []) ≡ insert_hypothesis new hs ++ h ∷ []
  unfolding insert_hypothesis
  insert-snoc_below new [] h e = rw e
  insert-snoc_below new (g ∷ hs) h e = elim (Bool-cases (ops.ltf g.score new.score)) [
    | inl p ↦ rw p
    | inr p ↦ rw p (ap (λ (l : List (HypothesisScore F)). g ∷ l) (insert-snoc_below new hs h e))
  ]

  pub insert-above :
      (new : HypothesisScore F) (hs : List (HypothesisScore F))
      → All (λ h. ops.ltf h.score new.score ≡ false) hs
      → insert_hypothesis new hs ≡ hs ++ new ∷ []
  unfolding insert_hypothesis
  insert-above new [] h = refl
  insert-above new (g ∷ hs) h =
      rw h.0 (ap (λ (l : List (HypothesisScore F)). g ∷ l) (insert-above new hs h.1))

  -- In a sorted list all elements before one that is not outranked are not outranked.
  pub snoc-above :
      (order : IsStrictWeak ops.ltf) (new : HypothesisScore F) (hs : List (HypothesisScore F))
      (h : HypothesisScore F)
      → IsSorted ranks_above (hs ++ h ∷ [])
      → ops.ltf h.score new.score ≡ false
      → All (λ g. ops.ltf g.score new.score ≡ false) (hs ++ h ∷ [])
  snoc-above order new [] h s e = (e, tt)
  snoc-above order new (g ∷ hs) h s e = (
    order.not_trans g.score h.score new.score (All-last hs h s.0) e,
    snoc-above order new hs h s.1 e,
  )
    where
      All-last :
          (hs : List (HypothesisScore F)) (h : HypothesisScore F)
          → All (λ y. ranks_above y g ≡ false) (hs ++ h ∷ [])
          → ranks_above h g ≡ false
      All-last [] h a = a.0
      All-last (x ∷ hs) h a = All-last hs h a.1

  pub take-IsSorted :
      (n : ℕ) (hs : List (HypothesisScore F))
      → IsSorted ranks_above hs
      → IsSorted ranks_above (take n hs)
  take-IsSorted zero hs s = tt
  take-IsSorted (suc n) [] s = tt
  take-IsSorted (suc n) (h ∷ hs) s = (All-take n hs s.0, take-IsSorted n hs s.1)
    where
      All-take :
          (n : ℕ) (hs : List (HypothesisScore F))
          → All (λ y. ranks_above y h ≡ false) hs
          → All (λ y. ranks_above y h ≡ false) (take n hs)
      All-take zero hs a = tt
      All-take (suc n) [] a = tt
      All-take (suc n) (x ∷ hs) a = (a.0, All-take n hs a.1)

  take-front :
      (hs : List (HypothesisScore F)) (h : HypothesisScore F) → take (length hs) (hs ++ h ∷ []) ≡ hs
  take-front hs h = take-append_length hs (h ∷ []) (length hs) refl

  -- The rotation inserts into the elements before the index and overwrites the one at it.
  pub rotate_in-insert :
      IsStrictWeak ops.ltf
      → (new : HypothesisScore F) (beams : List (HypothesisScore F)) (index : ℕ)
      → index < length beams
      → IsSorted ranks_above (take index beams)
      → rotate_in ops new beams index
        ≡ insert_hypothesis new (take index beams) ++ drop (suc index) beams
  unfolding rotate_in
  rotate_in-insert order new [] zero h s = elim h [ ]
  rotate_in-insert order new (x ∷ beams) zero h s = unfold insert_hypothesis in refl
  rotate_in-insert order new beams (suc index) h s =
      let moved = beam_at ops beams index in
      let front = take index beams in
      let shifted = set beams (suc index) moved in
      let split : take (suc index) beams ≡ front ++ moved ∷ [] =
        take-suc beams index _ (omega arith) in
      let kept : take index shifted ≡ front =
        take-set index beams (suc index) moved (omega arith) in
      let sorted : IsSorted ranks_above (front ++ moved ∷ []) = rw (← split) s in
      elim (Bool-cases (ops.ltf moved.score new.score)) [
        | inl e ↦ rw e (
            rotate_in-insert order new shifted index
              (omega (arith, length-set beams (suc index) moved))
              (rw kept (
                rw (take-front front moved) at
                  (take-IsSorted (length front) (front ++ moved ∷ []) sorted)))
            ∙ (rw
                (
                  kept,
                  drop-set beams (suc index) moved h,
                  split,
                  insert-snoc_below new front moved e,
                )
                (sym (
                  append_assoc (insert_hypothesis new front) (moved ∷ [])
                    (drop (suc (suc index)) beams)))))
        | inr e ↦ rw e (
            set-split beams (suc index) new h
            ∙ (rw
                (
                  split,
                  insert-above new (front ++ moved ∷ [])
                      (snoc-above order new front moved sorted e),
                )
                (sym
                  (append_assoc (front ++ moved ∷ []) (new ∷ []) (drop (suc (suc index)) beams)))))
      ]

  All-insert :
      (P : HypothesisScore F → Type 0) (new : HypothesisScore F) (hs : List (HypothesisScore F))
      → P new
      → All P hs
      → All P (insert_hypothesis new hs)
  unfolding insert_hypothesis
  All-insert P new [] p h = (p, tt)
  All-insert P new (x ∷ hs) p h = elim (Bool-cases (ops.ltf x.score new.score)) [
    | inl e ↦ rw e (p, h)
    | inr e ↦ rw e (h.0, All-insert P new hs p h.1)
  ]

  pub insert_hypothesis-IsSorted :
      IsStrictWeak ops.ltf
      → (new : HypothesisScore F) (hs : List (HypothesisScore F)) → IsSorted ranks_above hs
      → IsSorted ranks_above (insert_hypothesis new hs)
  unfolding insert_hypothesis
  insert_hypothesis-IsSorted order new [] s = (tt, tt)
  insert_hypothesis-IsSorted order new (x ∷ hs) s = elim (Bool-cases (ops.ltf x.score new.score)) [
    | inl e ↦
        let below = order.asymm x.score new.score e in
        rw e ((below, All-imp hs (λ y q. order.not_trans new.score x.score y.score below q) s.0), s)
    | inr e ↦ rw e (
      All-insert (λ y. ranks_above y x ≡ false) new hs e s.0,
      insert_hypothesis-IsSorted order new hs s.1,
    )
  ]
