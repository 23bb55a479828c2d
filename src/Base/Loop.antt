-- ===== src/Base/Loop.antt =====
-- Counted loops, with the invariant rule.
use Prim.Native.Nat.{ℕ, zero, suc, ◌+◌, ◌<◌}
use mathlib.Core.Path.{◌≡◌}
use native.Mathlib.Omega.{arith}

-- The state after the rounds with the numbers `from`, …, `from + rounds - 1`.
unfoldable pub for_range {ℓ} : {State : Type ℓ} → ℕ → ℕ → (ℕ → State → State) → State → State
for_range zero from round now = now
for_range (suc rounds) from round now =
    let next = round from now in for_range rounds (from + 1) round next

-- A property of the number and the state that each round before the last number keeps holds at
-- the end.
module _ {ℓ κ} {State : Type ℓ} (Holds : ℕ → State → Type κ) (round : ℕ → State → State) where
  pub for_range_inv :
      (rounds from last : ℕ) (now : State)
      → from + rounds ≡ last
      → ((k : ℕ) (t : State) → k < last → Holds k t → Holds (k + 1) (round k t))
      → Holds from now
      → Holds last (for_range rounds from round now)
  unfolding for_range
  for_range_inv zero from last now ends keeps here =
      let there : last ≡ from = omega arith in rw there here
  for_range_inv (suc rounds) from last now ends keeps here =
      let later = keeps from now (omega arith) here in
      for_range_inv rounds (from + 1) last (round from now) (omega arith) keeps later
