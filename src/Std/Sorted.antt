-- ===== src/Std/Sorted.antt =====
-- Laws of the algorithms, for a comparison that is a strict weak order: what C++ asks of it.
use onnxruntime_genai_privat.Base.{
  ℕ, suc, ◌+◌, ◌≡◌, inl, inr, refl, Bool, true, false, List, [], ◌∷◌, some, get_elem?, take, length,
  zero, ap, All, All-imp, Bool-cases, arith,
}
use onnxruntime_genai_privat.Std.{iota, insert_by, sort_by, max_index}
use mathlib.Core.List.{Perm}
use mathlib.Core.List.Perm

pub record IsStrictWeak {ℓ} {A : Type ℓ} (before : A → A → Bool) : Type ℓ where
  pub asymm : (a b : A) → before a b ≡ true → before b a ≡ false
  pub not_trans : (a b c : A) → before a b ≡ false → before b c ≡ false → before a c ≡ false

-- No element of a sorted list comes after one that it should stand before.
abbrev pub IsSorted {ℓ} : {A : Type ℓ} → (A → A → Bool) → List A → Type 0
IsSorted before [] = Unit
IsSorted before (x ∷ xs) = All (λ y. before y x ≡ false) xs × IsSorted before xs

-- Where the largest element stands, if `largest` at `best` was the largest so far.
pub data Largest {ℓ} {A : Type ℓ} (before : A → A → Bool) (best : ℕ) (largest : A) (i : ℕ)
    (xs : List A) : ℕ → Type ℓ where
  old :
      {r : ℕ}
      → r ≡ best
      → All (λ x. before largest x ≡ false) xs
      → Largest before best largest i xs r
  new :
      {r : ℕ} (j : ℕ) (v : A)
      → r ≡ i + j
      → get_elem? xs j ≡ some v
      → before largest v ≡ true
      → All (λ x. before v x ≡ false) xs
      → All (λ x. before x v ≡ true) (take j xs)
      → Largest before best largest i xs r

module _ {ℓ κ} {A : Type ℓ} (before : A → A → Bool) where
  All-insert_by :
      (P : A → Type κ) (x : A) (xs : List A) → P x → All P xs → All P (insert_by before x xs)
  unfolding insert_by
  All-insert_by P x [] px h = (px, tt)
  All-insert_by P x (y ∷ ys) px h = elim (Bool-cases (before y x)) [
    | inl e ↦ rw e (h.0, All-insert_by P x ys px h.1)
    | inr e ↦ rw e (px, h)
  ]

module _ {ℓ} {A : Type ℓ} (before : A → A → Bool) (order : IsStrictWeak before) where
  pub irrefl : (a : A) → before a a ≡ false
  irrefl a = elim (Bool-cases (before a a)) [ inl e ↦ order.asymm a a e | inr e ↦ e ]

  pub not_after : (a b c : A) → before a b ≡ true → before c b ≡ false → before a c ≡ true
  not_after a b c p q = elim (Bool-cases (before a c)) [
    | inl e ↦ e
    | inr e ↦ cc (order.not_trans a c b e q)
  ]

  not_before : (a b c : A) → before a b ≡ true → before a c ≡ false → before c b ≡ true
  not_before a b c p q = elim (Bool-cases (before c b)) [
    | inl e ↦ e
    | inr e ↦ cc (order.not_trans a c b q e)
  ]

  pub max_index-Largest :
      (best : ℕ) (largest : A) (i : ℕ) (xs : List A)
      → Largest before best largest i xs (max_index before best largest i xs)
  unfolding max_index
  max_index-Largest best largest i [] = old refl tt
  max_index-Largest best largest i (x ∷ xs) = elim (Bool-cases (before largest x)) [
    | inl e ↦ rw e (risen e (max_index-Largest i x (i + 1) xs))
    | inr e ↦ rw e (stayed e (max_index-Largest best largest (i + 1) xs))
  ]
    where
      risen :
          {r : ℕ}
          → before largest x ≡ true
          → Largest before i x (i + 1) xs r
          → Largest before best largest i (x ∷ xs) r
      risen e (old p h) = new 0 x (omega arith) refl e (irrefl x, h) tt
      risen e (new j v p q lt h first) =
          new (suc j) v (omega arith) q (not_after largest x v e (order.asymm x v lt))
            (order.asymm x v lt, h) (lt, first)

      stayed :
          {r : ℕ}
          → before largest x ≡ false
          → Largest before best largest (i + 1) xs r
          → Largest before best largest i (x ∷ xs) r
      stayed e (old p h) = old p (e, h)
      stayed e (new j v p q lt h first) =
          new (suc j) v (omega arith) q lt (order.asymm x v (not_before largest v x lt e), h)
            (not_before largest v x lt e, first)

  insert_by-IsSorted :
      (x : A) (xs : List A) → IsSorted before xs → IsSorted before (insert_by before x xs)
  unfolding insert_by
  insert_by-IsSorted x [] h = (tt, tt)
  insert_by-IsSorted x (y ∷ ys) h = elim (Bool-cases (before y x)) [
    | inl e ↦ rw e (
      All-insert_by before (λ z. before z y ≡ false) x ys (order.asymm y x e) h.0,
      insert_by-IsSorted x ys h.1,
    )
    | inr e ↦ rw e ((e, All-imp ys (λ z p. order.not_trans z y x p e) h.0), h)
  ]

  pub sort_by-IsSorted : (xs : List A) → IsSorted before (sort_by before xs)
  unfolding sort_by
  sort_by-IsSorted [] = tt
  sort_by-IsSorted (x ∷ xs) = insert_by-IsSorted x (sort_by before xs) (sort_by-IsSorted xs)

module _ {ℓ} {A : Type ℓ} (before : A → A → Bool) where
  insert_by-perm : (x : A) (xs : List A) → Perm (insert_by before x xs) (x ∷ xs)
  unfolding insert_by
  insert_by-perm x [] = Perm.refl (x ∷ [])
  insert_by-perm x (y ∷ ys) = elim (Bool-cases (before y x)) [
    | inl e ↦ rw e (Perm.trans (Perm.cons y (insert_by-perm x ys)) (Perm.swap x y ys))
    | inr e ↦ rw e (Perm.refl (x ∷ y ∷ ys))
  ]

  pub sort_by-perm : (xs : List A) → Perm (sort_by before xs) xs
  unfolding sort_by
  sort_by-perm [] = Perm.refl []
  sort_by-perm (x ∷ xs) =
      Perm.trans (insert_by-perm x (sort_by before xs)) (Perm.cons x (sort_by-perm xs))

  length-insert_by : (x : A) (xs : List A) → length (insert_by before x xs) ≡ suc (length xs)
  unfolding insert_by
  length-insert_by x [] = refl
  length-insert_by x (y ∷ ys) = ground (arith, length-insert_by x ys)

  pub length-sort_by : (xs : List A) → length (sort_by before xs) ≡ length xs
  unfolding sort_by
  length-sort_by [] = refl
  length-sort_by (x ∷ xs) = omega (arith, length-insert_by x (sort_by before xs), length-sort_by xs)

pub length-iota : (i n : ℕ) → length (iota i n) ≡ n
unfolding iota
length-iota i zero = refl
length-iota i (suc n) = ap suc (length-iota (i + 1) n)

-- A relation between each element and all behind it.
abbrev pub AllPairs {ℓ κ} : {A : Type ℓ} → (A → A → Type κ) → List A → Type κ
AllPairs R [] = Unit
AllPairs R (x ∷ xs) = All (R x) xs × AllPairs R xs

-- Sorting keeps what holds of all elements, or of all pairs in either order.
module _ {ℓ κ} {A : Type ℓ} (before : A → A → Bool) where
  pub All-sort_by : (P : A → Type κ) (xs : List A) → All P xs → All P (sort_by before xs)
  unfolding sort_by
  All-sort_by P [] h = h
  All-sort_by P (x ∷ xs) h = All-insert_by before P x (sort_by before xs) h.0 (All-sort_by P xs h.1)

  AllPairs-insert_by :
      (R : A → A → Type κ) (flip : (a b : A) → R a b → R b a) (x : A) (xs : List A)
      → All (R x) xs
      → AllPairs R xs
      → AllPairs R (insert_by before x xs)
  unfolding insert_by
  AllPairs-insert_by R flip x [] h k = (tt, tt)
  AllPairs-insert_by R flip x (y ∷ ys) h k = elim (Bool-cases (before y x)) [
    | inl e ↦
        rw e (
          All-insert_by before (R y) x ys (flip x y h.0) k.0,
          AllPairs-insert_by R flip x ys h.1 k.1,
        )
    | inr e ↦ rw e (h, k)
  ]

  pub AllPairs-sort_by :
      (R : A → A → Type κ) (flip : (a b : A) → R a b → R b a) (xs : List A)
      → AllPairs R xs
      → AllPairs R (sort_by before xs)
  unfolding sort_by
  AllPairs-sort_by R flip [] h = h
  AllPairs-sort_by R flip (x ∷ xs) h =
      AllPairs-insert_by R flip x (sort_by before xs) (All-sort_by (R x) xs h.0)
        (AllPairs-sort_by R flip xs h.1)
