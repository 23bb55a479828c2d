-- ===== src/Search/Ranked.antt =====
-- The ranked indices, and the loop that picks one of them.
use onnxruntime_genai_privat.Base.{
  ℕ, zero, suc, ◌<◌, ◌+◌, ap, if◌then◌else◌, ◌≡◌, ◌⊎◌, refl, Bool, false, List, [], ◌∷◌, some,
  get_elem?, length, drop, get_or, take, ◌-◌, ◌≤◌, ◌∙◌, get_elem?-in, get_elem?-take, All, arith,
  Bool-cases, inl, inr,
}
use onnxruntime_genai_privat.Base.Float.{FloatOps}
use onnxruntime_genai_privat.Std.{iota, insert_by, sort_by}
use onnxruntime_genai_privat.Std.Sorted.{
  IsStrictWeak, IsSorted, sort_by-IsSorted, length-sort_by, length-iota, All-sort_by, irrefl,
}
use onnxruntime_genai_privat.Search.Sampling.{zero_f, score, ranked, first_past}
use mathlib.Core.Path.{subst}

-- In a sorted list nothing from an element on comes before it.
IsSorted-drop {ℓ} :
    {A : Type ℓ} (before : A → A → Bool) (xs : List A) (k : ℕ) (v : A)
    → ((x : A) → before x x ≡ false)
    → IsSorted before xs
    → get_elem? xs k ≡ some v
    → All (λ y. before y v ≡ false) (drop k xs)
IsSorted-drop before [] k v never h e = cc
IsSorted-drop before (x ∷ xs) zero v never h e =
    let same : x ≡ v = cc in
    let rest : All (λ y. before y x ≡ false) (x ∷ xs) = (never x, h.0) in
    subst (λ w. All (λ y. before y w ≡ false) (x ∷ xs)) same rest
IsSorted-drop before (x ∷ xs) (suc k) v never h e = IsSorted-drop before xs k v never h.1 e

module _ {F : Type 0} (ops : FloatOps F) where
  -- The loop yields the index given, or one that it walked over.
  pub first_past-mem :
      (scores : List F) (token : ℕ) (threshold : F) (is : List ℕ)
      → (first_past ops scores token threshold is ≡ token)
        ⊎ ((j : ℕ) × (get_elem? is j ≡ some (first_past ops scores token threshold is)))
  unfolding first_past
  first_past-mem scores token threshold [] = inl refl
  first_past-mem scores token threshold (i ∷ is) =
      let left = ops.sub threshold (score ops scores i) in
      elim (Bool-cases (ops.ltf (zero_f ops) left)) [
        | inl e ↦ rw e (elim (first_past-mem scores token left is) [
          | inl p ↦ inl p
          | inr (j, p) ↦ inr (suc j, p)
        ])
        | inr e ↦ rw e (inr (0, refl))
      ]

  pub ranked-IsSorted :
      IsStrictWeak ops.ltf
      → (scores : List F)
      → IsSorted (λ i j. ops.ltf (score ops scores j) (score ops scores i)) (ranked ops scores)
  unfolding ranked
  ranked-IsSorted order scores =
      sort_by-IsSorted _
        (record {
          asymm = λ a b h. order.asymm _ _ h;
          not_trans = λ a b c p q. order.not_trans _ _ _ q p;
        })
        (iota 0 (length scores))

  pub length-ranked : (scores : List F) → length (ranked ops scores) ≡ length scores
  unfolding ranked
  length-ranked scores = length-sort_by _ (iota 0 (length scores)) ∙ length-iota 0 (length scores)

-- The elements that pass a test.
unfoldable pub count {ℓ} : {A : Type ℓ} → (A → Bool) → List A → ℕ
count test [] = 0
count test (x ∷ xs) = (if test x then 1 else 0) + count test xs

count-insert_by {ℓ} :
    {A : Type ℓ} (test : A → Bool) (before : A → A → Bool) (x : A) (xs : List A)
    → count test (insert_by before x xs) ≡ (if test x then 1 else 0) + count test xs
unfolding count insert_by
count-insert_by test before x [] = refl
count-insert_by test before x (y ∷ ys) = elim (Bool-cases (before y x)) [
  | inl e ↦ rw e (omega (arith, count-insert_by test before x ys))
  | inr e ↦ rw e refl
]

count-sort_by {ℓ} :
    {A : Type ℓ} (test : A → Bool) (before : A → A → Bool) (xs : List A)
    → count test (sort_by before xs) ≡ count test xs
unfolding count sort_by
count-sort_by test before [] = refl
count-sort_by test before (x ∷ xs) =
    omega (arith, count-insert_by test before x (sort_by before xs), count-sort_by test before xs)

-- The tests fail behind the first elements.
count-le {ℓ} :
    {A : Type ℓ} (test : A → Bool) (n : ℕ) (xs : List A)
    → All (λ x. test x ≡ false) (drop n xs)
    → count test xs ≤ n
unfolding count
count-le test zero [] h = omega arith
count-le test zero (x ∷ xs) h = rw h.0 (omega (arith, count-le test zero xs h.1))
count-le test (suc n) [] h = omega arith
count-le test (suc n) (x ∷ xs) h = ground (arith, count-le test n xs h)

-- A test of the indices of a list is one of its elements.
count-iota {ℓ} :
    {A : Type ℓ} (test : A → Bool) (xs : List A) (i : ℕ) (at : ℕ → Bool) (d : A)
    → ((j : ℕ) → j < length xs → at (i + j) ≡ test (get_or xs j d))
    → count at (iota i (length xs)) ≡ count test xs
unfolding count iota
count-iota test [] i at d same = refl
count-iota test (x ∷ xs) i at d same =
    let here : i + 0 ≡ i = omega arith in
    let first : at i ≡ test x = rw here at (same 0 (omega arith)) in
    rw first (
      ap (λ n. (if test x then 1 else 0) + n)
        (count-iota test xs (i + 1) at d (λ j lt.
          let next : i + 1 + j ≡ i + suc j = omega arith in rw next (same (suc j) (omega arith)))))

iota-below : (i n m : ℕ) → i + n ≤ m → All (λ j. j < m) (iota i n)
unfolding iota
iota-below i zero m le = tt
iota-below i (suc n) m le = (omega arith, iota-below (i + 1) n m (omega arith))

All-get_elem? {ℓ κ} :
    {A : Type ℓ} (P : A → Type κ) (xs : List A) (j : ℕ) (v : A)
    → All P xs
    → get_elem? xs j ≡ some v
    → P v
All-get_elem? P [] j v h e = absurd (cc e)
All-get_elem? P (x ∷ xs) zero v h e = let same : x ≡ v = cc in rw (← same) h.0
All-get_elem? P (x ∷ xs) (suc j) v h e = All-get_elem? P xs j v h.1 e

-- An index of the row, with fewer than `k` scores of the row above its own.
pub record IsAmongTop {F : Type 0} (ops : FloatOps F) (k : ℕ) (scores : List F) (i : ℕ)
    : Type 0 where
  pub own : F
  pub here : get_elem? scores i ≡ some own
  pub few_above : count (λ x. ops.ltf own x) scores < k

module _ {F : Type 0} (ops : FloatOps F) (order : IsStrictWeak ops.ltf) (k : ℕ)
    (scores : List F) where
  IsAmongTop-rank :
      (rank i : ℕ)
      → rank < k
      → get_elem? (ranked ops scores) rank ≡ some i
      → IsAmongTop ops k scores i
  unfolding ranked
  IsAmongTop-rank rank i lt here = record {
    own = score ops scores i;
    here = get_elem?-in scores i (zero_f ops) inside;
    few_above = omega (
      arith,
      count-iota (λ x. ops.ltf (score ops scores i) x) scores 0 above (zero_f ops)
          (λ j h. let zeroth : 0 + j ≡ j = omega arith in rw zeroth),
      count-sort_by above _ (iota 0 (length scores)),
      count-le above rank (ranked ops scores) behind,
    );
  }
    where
      above : ℕ → Bool
      above j = ops.ltf (score ops scores i) (score ops scores j)

      inside : i < length scores
      inside =
          All-get_elem? (λ j. j < length scores) (ranked ops scores) rank i
            (All-sort_by _ (λ j. j < length scores) _
              (iota-below 0 (length scores) (length scores) (omega arith)))
            here

      behind : All (λ j. above j ≡ false) (drop rank (ranked ops scores))
      behind =
          IsSorted-drop _ (ranked ops scores) rank i (λ j. irrefl ops.ltf order _)
            (ranked-IsSorted ops order scores) here

  -- The loop over the first `k` ranked indices, with the last of them to fall back on.
  pub first_past-IsAmongTop :
      (threshold : F)
      → 0 < k
      → k ≤ length scores
      → IsAmongTop ops k scores (
          first_past ops scores
            (get_or (ranked ops scores) (k - 1) 0)
            threshold
            (take k (ranked ops scores)))
  first_past-IsAmongTop threshold pos' fits =
      let indices = ranked ops scores in
      elim (first_past-mem ops scores (get_or indices (k - 1) 0) threshold (take k indices)) [
        | inl e ↦ rw e (
            IsAmongTop-rank (k - 1) (get_or indices (k - 1) 0) (omega arith)
              (get_elem?-in indices (k - 1) 0 (omega (arith, length-ranked ops scores))))
        | inr (j, e) ↦
            IsAmongTop-rank j _ (ground (arith, get_elem?-take k indices j))
              (ground (arith, get_elem?-take k indices j))
      ]
