-- ===== src/Uart/Gateway/Send.antt =====
-- Requests to the panel (`send` and `send_no_wait` of nightshift/hardware/uart/gateway.py).
pub mod Outcome
pub mod Sequence
pub mod Unanswered
use nightshift_opi.Prelude.{
  ℕ, zero, suc, ◌+◌, Bool, true, false, ◌&&◌, not, Option, none, some, List, [], ◌∷◌, ◌++◌, ◌==◌,
  if◌then◌else◌, Result, ok, err, timeout_error, runtime_error,
}
use nightshift_opi.Prelude.Bytes.{Bytes}
use nightshift_opi.Prelude.Exec.{Exec, raise, lift, gets, done, ◌>>=◌, ◌>>◌, continue}
use nightshift_opi.Uart.Frame.{Frame, request, wire}
use nightshift_opi.Uart.Gateway.{Gateway, next_sequence, write}

abbrev pub Pending : Type 0
Pending = List (ℕ × Option Frame)

-- `self._pending[seq] = fut`, with a new future
unfoldable pub put : ℕ → Pending → Pending
put seq [] = (seq, none) ∷ []
put seq ((j, fut) ∷ rest) = if j == seq then (j, none) ∷ rest else (j, fut) ∷ put seq rest

-- `self._pending.pop(seq, None)`
unfoldable pub pop : ℕ → Pending → Pending
pop seq [] = []
pop seq ((j, fut) ∷ rest) = if j == seq then rest else (j, fut) ∷ pop seq rest

-- The frame that the future of a sequence number holds. Every future is in the table while it is
-- waited for.
unfoldable pub answer : ℕ → Pending → Option Frame
answer seq [] = none
answer seq ((j, fut) ∷ rest) = if j == seq then fut else answer seq rest

abbrev pub max_retries : ℕ
max_retries = 3

-- `wait` is what the other tasks do to the gateway from a write to the end of its `wait_for`, be
-- that the answer or the timeout. A cancellation is not modelled.
module _ {App : Type 0} (wait : Gateway App → Gateway App) where
  -- The loop over the attempts. A writer that is gone raises an AttributeError, which ends it.
  unfoldable pub attempts : ℕ → ℕ → Bytes → Exec (Gateway App) Frame
  attempts zero seq wire g = (err timeout_error, g)
  attempts (suc n) seq wire g =
      if g.has_writer
      then (let after =
            wait (record g { pending = put seq g.pending; written = g.written ++ wire ∷ [] }) in
          let popped = record after { pending = pop seq after.pending } in
          elim (answer seq after.pending) [
            | some frame ↦ (ok frame, popped)
            | none ↦ attempts n seq wire popped
          ])
      else (err timeout_error, record g { pending = pop seq (put seq g.pending) })

  -- `not self._connected or self._writer is None`, negated
  abbrev pub is_open : Gateway App → Bool
  is_open g = g.connected && g.has_writer

  unfoldable pub send : ℕ → Bytes → ℕ → Exec (Gateway App) Frame
  send command payload flags g =
      if is_open g
      then (do
        seq ← next_sequence
        bytes ← lift (wire (request seq command payload flags))
        attempts (max_retries + 1) seq bytes)
          g
      else (err runtime_error, g)

module _ {App : Type 0} where
  unfoldable pub send_no_wait : ℕ → Bytes → ℕ → Exec (Gateway App) Unit
  send_no_wait command payload flags g =
      if g.connected && g.has_writer
      then (do
        seq ← next_sequence
        bytes ← lift (wire (request seq command payload flags))
        write bytes)
          g
      else (ok tt, g)
