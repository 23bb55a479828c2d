-- ===== src/Beam/Hypotheses/Ranked.antt =====
-- `Add` keeps the best hypotheses in order: it inserts into a sorted list and cuts that to size.
use onnxruntime_genai_privat.Base.{
  ℕ, suc, ◌+◌, ◌-◌, ◌≤◌, ◌<◌, ◌≡◌, refl, ap, sym, ◌∙◌, true, false, not, List, [], ◌∷◌, ◌++◌, ◌==◌,
  take, drop, min, length, Bool-cases, inl, inr, arith, length-append, length-take, length-drop,
  take-suc, take-append_length, take-all,
}
use mathlib.Core.Path.{subst}
use onnxruntime_genai_privat.Base.Int.{ℤ}
use onnxruntime_genai_privat.Base.Float.{FloatOps}
use onnxruntime_genai_privat.Std.Sorted.{IsStrictWeak, IsSorted}
use onnxruntime_genai_privat.Beam.Hypotheses.{
  HypothesisScore, BeamHypotheses, beam_at, penalized, rotate_in, add,
}
use onnxruntime_genai_privat.Beam.Hypotheses.Insert.{
  ranks_above, insert_hypothesis, length-insert_hypothesis, insert-snoc_below, insert-above,
  snoc-above, take-IsSorted, rotate_in-insert, insert_hypothesis-IsSorted,
}

-- The beams in use are sorted, best first, and there is at least one beam.
pub record IsRanked {F : Type 0} (ops : FloatOps F) (b : BeamHypotheses F) : Type 0 where
  pub some_beam : 0 < length b.beams
  pub used_le : b.beams_used ≤ length b.beams
  pub sorted : IsSorted (ranks_above ops) (take b.beams_used b.beams)

-- `b'` is `b` with the hypothesis `new` inserted in its place and the last one cut off if there is no room.
pub record Inserted {F : Type 0} (ops : FloatOps F) (new : HypothesisScore F)
    (b b' : BeamHypotheses F) : Type 0 where
  pub same_size : length b'.beams ≡ length b.beams
  pub used : b'.beams_used ≡ min (b.beams_used + 1) (length b.beams)
  pub contents :
      take b'.beams_used b'.beams
      ≡ take (length b.beams) (insert_hypothesis ops new (take b.beams_used b.beams))

module _ {F : Type 0} (ops : FloatOps F) (order : IsStrictWeak ops.ltf)
    (lef_not : (a c : F) → ops.lef a c ≡ not (ops.ltf c a)) (new : HypothesisScore F)
    (b : BeamHypotheses F) (ranked : IsRanked ops b) where
  Inserted-room :
      b.beams_used < length b.beams
      → Inserted ops new b (record b {
        beams = rotate_in ops new b.beams b.beams_used;
        beams_used = b.beams_used + 1;
      })
  Inserted-room h =
      let front = take b.beams_used b.beams in
      let e = rotate_in-insert ops order new b.beams b.beams_used h ranked.sorted in
      let grown : length (insert_hypothesis ops new front) ≡ b.beams_used + 1 =
        omega (arith, length-insert_hypothesis ops new front, length-take b.beams_used b.beams) in
      record {
        same_size = omega (
          arith,
          grown,
          ap length e,
          length-append (insert_hypothesis ops new front) (drop (suc b.beams_used) b.beams),
          length-drop (suc b.beams_used) b.beams,
        );
        used = omega arith;
        contents = rw e (
            take-append_length (insert_hypothesis ops new front) _ (b.beams_used + 1) grown
            ∙ sym (take-all (length b.beams) (insert_hypothesis ops new front) (omega arith)));
      }

  abbrev last : ℕ
  last = length b.beams - 1

  front_last : take (length b.beams) b.beams ≡ take last b.beams ++ beam_at ops b.beams last ∷ []
  front_last =
      let e : length b.beams ≡ suc (length b.beams - 1) = omega (arith, ranked.some_beam) in
      ap (λ n. take n b.beams) e
      ∙ take-suc b.beams (length b.beams - 1) _ (omega (arith, ranked.some_beam))

  Inserted-refused :
      b.beams_used ≡ length b.beams
      → ops.ltf (beam_at ops b.beams last).score new.score ≡ false
      → Inserted ops new b b
  Inserted-refused full e =
      let sorted : IsSorted (ranks_above ops) (take last b.beams ++ beam_at ops b.beams last ∷ []) =
        rw (← front_last) (rw full at ranked.sorted) in
      let above =
        snoc-above ops order new (take last b.beams) (beam_at ops b.beams last) sorted e in
      record {
        same_size = refl;
        used = omega arith;
        contents =
            rw (full, front_last)
              (rw (insert-above ops new (take last b.beams ++ beam_at ops b.beams last ∷ []) above)
                (sym (
                  take-append_length (take last b.beams ++ beam_at ops b.beams last ∷ []) (new ∷ [])
                    (length b.beams)
                    (ap length (sym front_last)
                      ∙ ap length (take-all (length b.beams) b.beams (omega arith))))));
      }

  Inserted-replaced :
      b.beams_used ≡ length b.beams
      → ops.ltf (beam_at ops b.beams last).score new.score ≡ true
      → Inserted ops new b (record b { beams = rotate_in ops new b.beams last })
  Inserted-replaced full e =
      let front = take last b.beams in
      let h : last < length b.beams = omega (arith, ranked.some_beam) in
      let whole : IsSorted (ranks_above ops) b.beams =
        subst (IsSorted (ranks_above ops)) (take-all b.beams_used b.beams (omega arith))
          ranked.sorted in
      let rotated =
        rotate_in-insert ops order new b.beams last h (take-IsSorted ops last b.beams whole) in
      let grown : length (insert_hypothesis ops new front) ≡ length b.beams =
        omega (arith, length-insert_hypothesis ops new front, length-take last b.beams) in
      record {
        same_size = omega (
          arith,
          grown,
          ap length rotated,
          length-append (insert_hypothesis ops new front) (drop (suc last) b.beams),
          length-drop (suc last) b.beams,
        );
        used = omega arith;
        contents =
            rw
              (
                full,
                rotated,
                front_last,
                insert-snoc_below ops new front (beam_at ops b.beams last) e,
              )
              (take-append_length (insert_hypothesis ops new front) _ (length b.beams) grown
                ∙ sym (
                    take-append_length (insert_hypothesis ops new front) _ (length b.beams) grown));
      }

  Inserted-IsRanked : (b' : BeamHypotheses F) → Inserted ops new b b' → IsRanked ops b'
  Inserted-IsRanked b' i = record {
    some_beam = omega (arith, i.same_size, ranked.some_beam);
    used_le = omega (arith, i.same_size, i.used);
    sorted = rw i.contents (
        take-IsSorted ops (length b.beams) _
          (insert_hypothesis-IsSorted ops order new (take b.beams_used b.beams) ranked.sorted));
  }

-- `Add` inserts the hypothesis, with its penalised score, into the list of the best ones so far and
-- cuts that list to the number of beams; so it stays sorted, best first.
pub add-Inserted :
    {F : Type 0} (ops : FloatOps F)
    → IsStrictWeak ops.ltf
    → ((a c : F) → ops.lef a c ≡ not (ops.ltf c a))
    → (b : BeamHypotheses F) (hypothesis : List ℤ) (sum_logprobs : F) → IsRanked ops b
    → let new : HypothesisScore F = record {
      hypothesis = hypothesis;
      score = penalized ops b.length_penalty sum_logprobs (length hypothesis);
    } in
      Inserted ops new b (add ops b hypothesis sum_logprobs)
      × IsRanked ops (add ops b hypothesis sum_logprobs)
unfolding add
add-Inserted {F} ops order lef_not b hypothesis sum_logprobs ranked =
    let score = penalized ops b.length_penalty sum_logprobs (length hypothesis) in
    let new : HypothesisScore F = record { hypothesis = hypothesis; score = score } in
    let least = (beam_at ops b.beams (length b.beams - 1)).score in
    let both = λ (b' : BeamHypotheses F) (i : Inserted ops new b b').
      let r : Inserted ops new b b' × IsRanked ops b' =
        (i, Inserted-IsRanked ops order lef_not new b ranked b' i) in
      r in
    elim (Bool-cases (b.beams_used == length b.beams)) [
      | inl full ↦ elim (Bool-cases (ops.ltf least score)) [
        | inl e ↦
            rw (full, lef_not score least, e)
              (both _ (Inserted-replaced ops order lef_not new b ranked (ground arith) e))
        | inr e ↦
            rw (full, lef_not score least, e)
              (both _ (Inserted-refused ops order lef_not new b ranked (ground arith) e))
      ]
      | inr room ↦
          rw room
            (both _ (Inserted-room ops order lef_not new b ranked (ground (arith, ranked.used_le))))
    ]
