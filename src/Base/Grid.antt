-- ===== src/Base/Grid.antt =====
-- A flat buffer read as rows of `m` cells.
use Prim.Native.Nat.{ℕ, ◌+◌, ◌-◌, ◌*◌, ◌≤◌, ◌<◌}
use mathlib.Core.Path.{◌≡◌}
use mathlib.Core.Bool.{◌&&◌}
use native.Mathlib.Omega.{arith}
use mathlib.Core.List.{List}
use onnxruntime_genai_privat.Base.Test.{◌==◌, ==_iff, ltb, leb, if◌then◌else◌, Bool-cases}
use mathlib.Core.Logic.{inl, inr}
use onnxruntime_genai_privat.Base.Lists.{length, get_elem?}
use onnxruntime_genai_privat.Base.Cells.{write_at, get_elem?-write_at}

-- A cell of one of `n` rows lies in the buffer.
pub cell_lt : (k n a m : ℕ) → k < n → a < m → k * m + a < n * m
cell_lt k n a m h j = grind arith

-- Two cells have one place exactly when they have one row and one column.
pub cell_eq :
    (k r a c m : ℕ) → a < m → c < m → ((k * m + a) == (r * m + c)) ≡ ((k == r) && (a == c))
cell_eq k r a c m h j = ground (arith, cell_lt k r a m, cell_lt r k c m)

-- A whole row lies in the buffer.
pub row_le : (k n m : ℕ) → k < n → k * m + m ≤ n * m
row_le k n m h = grind arith

-- A cell lies in the first `n` cells of row `k` exactly when it stands in that row before `n`.
pub row_span :
    (k r c n m : ℕ)
    → c < m
    → n ≤ m
    → (leb (k * m) (r * m + c) && ltb (r * m + c) (k * m + n)) ≡ ((k == r) && ltb c n)
row_span k r c n m h j = ground (arith, row_le k r m, row_le r k m)

same_row : (k r c m : ℕ) → k ≡ r → r * m + c - k * m ≡ c
same_row k r c m e = rw e (omega arith)

module _ {ℓ} {A : Type ℓ} where
  -- What a block written at the front of row `k` leaves in each cell.
  pub get_elem?-write_row :
      (xs : List A) (k r c m : ℕ) (vs : List A)
      → c < m
      → length vs ≤ m
      → k * m + length vs ≤ length xs
      → get_elem? (write_at xs (k * m) vs) (r * m + c)
        ≡ (if (k == r) && ltb c (length vs) then get_elem? vs c else get_elem? xs (r * m + c))
  get_elem?-write_row xs k r c m vs hc hv hx =
      rw (get_elem?-write_at xs (k * m) vs (r * m + c) hx) (
        rw (row_span k r c (length vs) m hc hv) (elim (Bool-cases (k == r)) [
          | inl e ↦ rw (same_row k r c m ((==_iff k r).0 e))
          | inr e ↦ rw e
        ]))
