-- ===== src/Uart/Gateway/Send/Sequence.antt =====
-- Sequence numbers.
use nightshift_opi.Prelude.{ℕ, zero, suc, ◌+◌, ◌%◌, ◌≤◌, ◌<◌, ◌≡◌, ◌≢◌, arith}
use nightshift_opi.Uart.Gateway.{Gateway, next_sequence}

module _ {App : Type 0} where
  -- The number that the k-th request from now on takes, from 0.
  unfoldable pub sequence_after : ℕ → Gateway App → ℕ
  sequence_after zero g = (next_sequence g).1.sequence
  sequence_after (suc k) g = sequence_after k (next_sequence g).1

  sequence_after_lem : (k : ℕ) (g : Gateway App) → sequence_after k g ≡ (g.sequence + k) % 65535 + 1
  unfolding sequence_after next_sequence
  sequence_after_lem zero g = omega arith
  sequence_after_lem (suc k) g = omega (arith, sequence_after_lem k (next_sequence g).1)

  -- Each request takes a number from 1 to 65535, and two requests fewer than 65535 apart take
  -- different numbers.
  pub sequence_distinct :
      (g : Gateway App) (j k : ℕ)
      → j < k
      → k < j + 65535
      → (1 ≤ sequence_after j g)
        × (sequence_after j g ≤ 65535)
        × (sequence_after j g ≢ sequence_after k g)
  sequence_distinct g j k h l = (
    omega (arith, sequence_after_lem j g),
    omega (arith, sequence_after_lem j g),
    λ e. omega (arith, sequence_after_lem j g, sequence_after_lem k g),
  )
