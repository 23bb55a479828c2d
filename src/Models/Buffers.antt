-- ===== src/Models/Buffers.antt =====
-- src/models/static_buffer.cpp, with SizeOf of src/models/utils.cpp: tensors on one buffer that is
-- allocated for the first of them.
use onnxruntime_genai_privat.Base.{
  ℕ, zero, suc, ◌+◌, ◌^◌, ◌*◌, ◌/◌, ◌%◌, ◌≤◌, ◌<◌, ◌≡◌, ◌↔◌, ap, ◌∙◌, Bool, true, if◌then◌else◌,
  Option, none, some, List, [], ◌∷◌, arith,
}
use native.Mathlib.Nat.{div-add-mod', mod-lt, mul_assoc, mul_comm, le_of_mul-le-mul_left}

-- The element types of tensors, by the names of ONNX Runtime.
pub data ElementType : Type 0 where
  uint8 int8 uint16 int16 uint32 int32 uint64 int64 bool float32 float64 float16 bfloat16 :
      ElementType
  other : ElementType

-- `none` is the exception for a type of no known size.
unfoldable pub size_of : ElementType → Option ℕ
size_of uint8 = some 1
size_of int8 = some 1
size_of uint16 = some 2
size_of int16 = some 2
size_of uint32 = some 4
size_of int32 = some 4
size_of uint64 = some 8
size_of int64 = some 8
size_of bool = some 1
size_of float32 = some 4
size_of float64 = some 8
size_of float16 = some 2
size_of bfloat16 = some 2
size_of other = none

-- `size_t` multiplication.
unfoldable pub mul_size : ℕ → ℕ → ℕ
mul_size a b = a * b % 2 ^ 64

unfoldable pub get_num_elements : ℕ → List ℕ → ℕ
unfolding mul_size
get_num_elements num_elements [] = num_elements
get_num_elements num_elements (dim ∷ dims) = get_num_elements (mul_size num_elements dim) dims

-- `bytes` is `none` while `buffer_` is null.
pub record StaticBuffer : Type 0 where
  pub max_beam_batch_size : ℕ
  pub bytes : Option ℕ

-- CreateTensorOnStaticBuffer, with the answer of the allocator for a size: whether `Alloc` gives more
-- than null. The buffer, and the bytes of the tensor on it; the first dimension of the shape, which
-- is at least 1, stands apart. That a tensor is larger than the buffer makes no difference: the
-- exception is constructed and not thrown.
pub create_from : (ℕ → Bool) → ℕ → ℕ → StaticBuffer → Option ℕ → StaticBuffer × Option ℕ
unfolding mul_size
create_from allocs new_bytes first b none =
    let bytes = mul_size new_bytes (b.max_beam_batch_size / first) in
    (record b { bytes = if allocs bytes then some bytes else none }, some new_bytes)
create_from allocs new_bytes first b (some bytes) = (b, some new_bytes)

pub create_tensor : (ℕ → Bool) → ElementType → ℕ → List ℕ → StaticBuffer → StaticBuffer × Option ℕ
unfolding create_from mul_size
create_tensor allocs type first dims b = elim (size_of type) [
  | none ↦ (b, none)
  | some size ↦
      create_from allocs (mul_size size (get_num_elements 1 (first ∷ dims))) first b b.bytes
]

-- The bytes of a buffer.
pub room : StaticBuffer → ℕ
room b = elim b.bytes [ some bytes ↦ bytes | none ↦ 0 ]

unfoldable pub product : List ℕ → ℕ
product [] = 1
product (dim ∷ dims) = dim * product dims

-- A product of factors other than 0 is not less than one of them.
le_mul : (a p : ℕ) → 0 < p → a ≤ a * p
le_mul a p pos = grind arith

mul_size_lem : (a b : ℕ) → a * b < 2 ^ 64 → mul_size a b ≡ a * b
unfolding mul_size
mul_size_lem a b small = omega arith

factor_pos : (a p : ℕ) → 0 < a * p → 0 < p
factor_pos a p pos = grind arith

get_num_elements_lem :
    (dims : List ℕ) (n : ℕ)
    → 0 < product dims
    → n * product dims < 2 ^ 64
    → get_num_elements n dims ≡ n * product dims
unfolding get_num_elements product
get_num_elements_lem [] n pos small = omega arith
get_num_elements_lem (dim ∷ dims) n pos small =
    let rest = factor_pos dim (product dims) pos in
    let whole = mul_assoc n dim (product dims) in
    let fits : n * dim < 2 ^ 64 = omega (arith, whole, le_mul (n * dim) (product dims) rest) in
    rw (mul_size_lem n dim fits)
      (get_num_elements_lem dims (n * dim) rest (omega (arith, whole)) ∙ whole)

-- The bytes of a tensor that `size_t` counts.
tensor_bytes :
    (size rows : ℕ) (dims : List ℕ)
    → 0 < size * product dims
    → size * product dims * rows < 2 ^ 64
    → mul_size size (get_num_elements 1 (rows ∷ dims)) ≡ size * product dims * rows
unfolding get_num_elements
tensor_bytes size rows dims pos small =
    let elements = factor_pos size (product dims) pos in
    let turned : 0 < product dims * size = omega (arith, mul_comm (product dims) size, pos) in
    let some_size = factor_pos (product dims) size turned in
    let whole : size * (rows * product dims) ≡ size * product dims * rows = grind arith in
    let fewer = le_mul (rows * product dims) size some_size in
    let swapped = mul_comm (rows * product dims) size in
    let counted : rows * product dims < 2 ^ 64 = omega (arith, whole, fewer, swapped) in
    let one : mul_size 1 rows ≡ rows =
      mul_size_lem 1 rows (omega (arith, le_mul rows (product dims) elements)) ∙ omega arith in
    rw (one, get_num_elements_lem dims rows elements counted)
      (mul_size_lem size (rows * product dims) (omega (arith, whole)) ∙ whole)

create_tensor-known :
    (allocs : ℕ → Bool) (type : ElementType) (size first : ℕ) (dims : List ℕ) (b : StaticBuffer)
    → size_of type ≡ some size
    → create_tensor allocs type first dims b
      ≡ create_from allocs (mul_size size (get_num_elements 1 (first ∷ dims))) first b b.bytes
unfolding create_tensor
create_tensor-known allocs type size first dims b known = rw (create_tensor, known)

both_pos : (a b : ℕ) → 0 < a → 0 < b → 0 < a * b
both_pos a b h k = grind arith

quotient_pos : (q d r n : ℕ) → q * d + r ≡ n → r < d → d ≤ n → 0 < q
quotient_pos zero d r n split rest le = absurd (omega arith)
quotient_pos (suc q) d r n split rest le = omega arith

mul_le : (r a b : ℕ) → a ≤ b → r * a ≤ r * b
mul_le r a b le = grind arith

divides_iff :
    (row first max : ℕ) → 0 < row → (row * max ≤ row * first * (max / first)) ↔ (max % first ≡ 0)
divides_iff row first max pos =
    let split = div-add-mod' max first in
    let order = mul_comm (max / first) first in
    let whole = mul_assoc row first (max / first) in
    (
      λ fits.
          let fewer : max ≤ first * (max / first) = le_of_mul-le-mul_left (rw whole at fits) pos in
          omega (arith, split, order),
      λ zeroth.
          let exact : max ≡ first * (max / first) = omega (arith, split, order) in
          rw whole (let same = ap (λ k. row * k) exact in omega (arith, same)),
    )

-- The buffer of the first tensor.
abbrev pub first_buffer : (ℕ → Bool) → ElementType → ℕ → ℕ → List ℕ → StaticBuffer
first_buffer allocs type first max dims =
    (create_tensor allocs type first dims (record { max_beam_batch_size = max; bytes = none })).0

module _ (allocs : ℕ → Bool) (type : ElementType) (size first max : ℕ) (dims : List ℕ)
    (gives : (bytes : ℕ) → 0 < bytes → allocs bytes ≡ true) (known : size_of type ≡ some size)
    (row : 0 < size * product dims) (small : size * product dims * max < 2 ^ 64) (pos : 0 < first)
    (le : first ≤ max) where
  less : size * product dims * first ≤ size * product dims * max
  less = mul_le (size * product dims) first max le

  within : size * product dims * first * (max / first) ≤ size * product dims * max
  within = rw (mul_assoc (size * product dims) first (max / first)) (
      mul_le (size * product dims) (first * (max / first)) max
        (omega (arith, div-add-mod' max first, mul_comm (max / first) first)))

  some_bytes : 0 < size * product dims * first * (max / first)
  some_bytes = both_pos _ (max / first) (both_pos (size * product dims) first row pos) (
      quotient_pos (max / first) first (max % first) max (div-add-mod' max first) (mod-lt max pos)
        le)

  first_buffer-made : first_buffer allocs type first max dims ≡ record {
    max_beam_batch_size = max;
    bytes = some (size * product dims * first * (max / first));
  }
  unfolding create_from
  first_buffer-made =
      let given = gives (size * product dims * first * (max / first)) some_bytes in
      let counted =
        mul_size_lem (size * product dims * first) (max / first) (omega (arith, within, small)) in
      ap (λ (p : StaticBuffer × Option ℕ). p.0)
        (create_tensor-known allocs type size first dims _ known)
      ∙ rw (tensor_bytes size first dims row (omega (arith, less, small)), counted, given)

  -- If the allocator gives a buffer for every size but 0, the type has a known size, and a tensor with
  -- as many rows as the buffer is made for, of at least one byte each, has a number of bytes that
  -- `size_t` counts: after a first tensor with at least one row and no more than that, a tensor of the
  -- same type and other dimensions with that many rows is created with its bytes, and lies in the
  -- buffer exactly when the number of rows of the first divides that number.
  pub create_tensor-fits_iff :
      ((create_tensor allocs type max dims (first_buffer allocs type first max dims)).1
        ≡ some (size * product dims * max))
      × ((size * product dims * max ≤ room (first_buffer allocs type first max dims))
          ↔ (max % first ≡ 0))
  unfolding create_from room
  create_tensor-fits_iff = rw first_buffer-made (
    ap (λ (p : StaticBuffer × Option ℕ). p.1)
          (create_tensor-known allocs type size max dims _ known)
        ∙ ap some (tensor_bytes size max dims row small),
    divides_iff (size * product dims) first max row,
  )
