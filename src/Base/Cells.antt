-- ===== src/Base/Cells.antt =====
-- What the reads of a buffer return after writes, and equality of lists cell by cell.
use Prim.Native.Nat.{ℕ, zero, suc, ◌+◌, ◌-◌, ◌≤◌, ◌<◌}
use mathlib.Core.Path.{◌≡◌, refl, ap}
use mathlib.Core.Bool.{◌&&◌}
use mathlib.Core.List.{List, [], ◌∷◌, ◌++◌, map}
use mathlib.Core.Option.{none, some}
use native.Mathlib.Omega.{arith}
use onnxruntime_genai_privat.Base.Test.{ltb, leb, ◌==◌, if◌then◌else◌}
use onnxruntime_genai_privat.Base.Lists.{
  length, get_elem?, get_or, set, take, drop, subspan, length-set,
}

-- the index behind the first cell of a written block
shift : (j o : ℕ) → o < j → j - o ≡ suc (j - (o + 1))
shift j o h = omega arith

module _ {ℓ} {A : Type ℓ} where
  pub get_elem?-set :
      (xs : List A) (i j : ℕ) (v : A)
      → i < length xs
      → get_elem? (set xs i v) j ≡ (if i == j then some v else get_elem? xs j)
  get_elem?-set [] i j v h = elim h [ ]
  get_elem?-set (x ∷ xs) zero zero v h = ground arith
  get_elem?-set (x ∷ xs) zero (suc j) v h = ground arith
  get_elem?-set (x ∷ xs) (suc i) zero v h = ground arith
  get_elem?-set (x ∷ xs) (suc i) (suc j) v h = ground (arith, get_elem?-set xs i j v)

  pub get_elem?-take :
      (n : ℕ) (xs : List A) (j : ℕ)
      → get_elem? (take n xs) j ≡ (if ltb j n then get_elem? xs j else none)
  get_elem?-take zero xs j = ground arith
  get_elem?-take (suc n) [] j = ground arith
  get_elem?-take (suc n) (x ∷ xs) zero = ground arith
  get_elem?-take (suc n) (x ∷ xs) (suc j) = ground (arith, get_elem?-take n xs j)

  pub get_elem?-drop :
      (n : ℕ) (xs : List A) (j : ℕ) → get_elem? (drop n xs) j ≡ get_elem? xs (n + j)
  get_elem?-drop zero xs j = ground arith
  get_elem?-drop (suc n) [] j = refl
  get_elem?-drop (suc n) (x ∷ xs) j = ground (arith, get_elem?-drop n xs j)

  pub get_elem?-subspan :
      (xs : List A) (o n j : ℕ)
      → get_elem? (subspan xs o n) j ≡ (if ltb j n then get_elem? xs (o + j) else none)
  get_elem?-subspan xs o n j = rw (get_elem?-take n (drop o xs) j) (rw (get_elem?-drop o xs j))

  pub get_elem?-out : (xs : List A) (j : ℕ) → length xs ≤ j → get_elem? xs j ≡ none
  get_elem?-out [] j h = refl
  get_elem?-out (x ∷ xs) zero h = absurd (omega arith)
  get_elem?-out (x ∷ xs) (suc j) h = get_elem?-out xs j (omega arith)

  pub get_elem?-in :
      (xs : List A) (j : ℕ) (d : A) → j < length xs → get_elem? xs j ≡ some (get_or xs j d)
  get_elem?-in [] j d h = elim h [ ]
  get_elem?-in (x ∷ xs) zero d h = refl
  get_elem?-in (x ∷ xs) (suc j) d h = get_elem?-in xs j d (omega arith)

  pub get_elem?-append :
      (xs ys : List A) (j : ℕ)
      → get_elem? (xs ++ ys) j
        ≡ (if ltb j (length xs) then get_elem? xs j else get_elem? ys (j - length xs))
  get_elem?-append [] ys j = ground arith
  get_elem?-append (x ∷ xs) ys zero = ground arith
  get_elem?-append (x ∷ xs) ys (suc j) = ground (arith, get_elem?-append xs ys j)

  -- Two lists that agree at every index are equal.
  pub List-ext : (xs ys : List A) → ((j : ℕ) → get_elem? xs j ≡ get_elem? ys j) → xs ≡ ys
  List-ext [] [] h = refl
  List-ext [] (y ∷ ys) h = cc (h 0)
  List-ext (x ∷ xs) [] h = cc (h 0)
  List-ext (x ∷ xs) (y ∷ ys) h = let hd = h 0 in cc (hd, List-ext xs ys (λ j. h (suc j)))

  -- `copy(source, target)`, where `target` starts at an offset of a buffer.
  unfoldable pub write_at : List A → ℕ → List A → List A
  write_at xs o [] = xs
  write_at xs o (v ∷ vs) = write_at (set xs o v) (o + 1) vs

  pub length-write_at : (xs : List A) (o : ℕ) (vs : List A) → length (write_at xs o vs) ≡ length xs
  unfolding write_at
  length-write_at xs o [] = refl
  length-write_at xs o (v ∷ vs) =
      omega (arith, length-write_at (set xs o v) (o + 1) vs, length-set xs o v)

  pub get_elem?-write_at :
      (xs : List A) (o : ℕ) (vs : List A) (j : ℕ)
      → o + length vs ≤ length xs
      → get_elem? (write_at xs o vs) j
        ≡ (if leb o j && ltb j (o + length vs) then get_elem? vs (j - o) else get_elem? xs j)
  unfolding write_at
  get_elem?-write_at xs o [] j h = ground arith
  get_elem?-write_at xs o (v ∷ vs) j h = ground (
    arith,
    get_elem?-write_at (set xs o v) (o + 1) vs j,
    get_elem?-set xs o j v,
    length-set xs o v,
    shift j o,
  )

  pub get_or-set :
      (xs : List A) (i j : ℕ) (v d : A)
      → get_or (set xs i v) j d ≡ (if (i == j) && ltb i (length xs) then v else get_or xs j d)
  get_or-set [] i j v d = ground arith
  get_or-set (x ∷ xs) zero zero v d = ground arith
  get_or-set (x ∷ xs) zero (suc j) v d = ground arith
  get_or-set (x ∷ xs) (suc i) zero v d = ground arith
  get_or-set (x ∷ xs) (suc i) (suc j) v d = ground (arith, get_or-set xs i j v d)

  pub take-suc :
      (xs : List A) (i : ℕ) (d : A)
      → i < length xs
      → take (suc i) xs ≡ take i xs ++ get_or xs i d ∷ []
  take-suc [] i d h = elim h [ ]
  take-suc (x ∷ xs) zero d h = refl
  take-suc (x ∷ xs) (suc i) d h = ap (λ (l : List A). x ∷ l) (take-suc xs i d (omega arith))

  pub take-set : (n : ℕ) (xs : List A) (i : ℕ) (v : A) → n ≤ i → take n (set xs i v) ≡ take n xs
  take-set zero xs i v h = refl
  take-set (suc n) [] i v h = refl
  take-set (suc n) (x ∷ xs) zero v h = absurd (omega arith)
  take-set (suc n) (x ∷ xs) (suc i) v h =
      ap (λ (l : List A). x ∷ l) (take-set n xs i v (omega arith))

  -- A written cell, between what stands before it and what stands behind it.
  pub set-split :
      (xs : List A) (i : ℕ) (v : A) → i < length xs → set xs i v ≡ take i xs ++ v ∷ drop (suc i) xs
  set-split [] i v h = elim h [ ]
  set-split (x ∷ xs) zero v h = refl
  set-split (x ∷ xs) (suc i) v h = ap (λ (l : List A). x ∷ l) (set-split xs i v (omega arith))

  pub drop-set :
      (xs : List A) (i : ℕ) (v : A) → i < length xs → drop i (set xs i v) ≡ v ∷ drop (suc i) xs
  drop-set [] i v h = elim h [ ]
  drop-set (x ∷ xs) zero v h = refl
  drop-set (x ∷ xs) (suc i) v h = drop-set xs i v (omega arith)

  pub take-append_length : (xs ys : List A) (n : ℕ) → length xs ≡ n → take n (xs ++ ys) ≡ xs
  take-append_length [] ys zero h = refl
  take-append_length [] ys (suc n) h = absurd (omega arith)
  take-append_length (x ∷ xs) ys zero h = absurd (omega arith)
  take-append_length (x ∷ xs) ys (suc n) h =
      ap (λ (l : List A). x ∷ l) (take-append_length xs ys n (omega arith))

  pub take-all : (n : ℕ) (xs : List A) → length xs ≤ n → take n xs ≡ xs
  take-all zero [] h = refl
  take-all zero (x ∷ xs) h = absurd (omega arith)
  take-all (suc n) [] h = refl
  take-all (suc n) (x ∷ xs) h = ap (λ (l : List A). x ∷ l) (take-all n xs (omega arith))

pub get_elem?-map {ℓ κ} :
    {A : Type ℓ} {B : Type κ} (f : A → B) (xs : List A) (i : ℕ) {x : A}
    → get_elem? xs i ≡ some x
    → get_elem? (map f xs) i ≡ some (f x)
get_elem?-map f [] i h = absurd cc
get_elem?-map f (y ∷ xs) zero h = cc h
get_elem?-map f (y ∷ xs) (suc i) h = get_elem?-map f xs i h
