-- ===== src/Uart/Gateway/Connection.antt =====
-- The serial line (`_connect`, `_disconnect`, `_handshake` and the body of `_connection_loop`).
pub mod Backoff
use nightshift_opi.Prelude.{
  ℕ, ◌*◌, Bool, true, false, List, [], ◌∷◌, if◌then◌else◌, min, Result, ok, err,
}
use nightshift_opi.Prelude.Exec.{
  Exec, lift, gets, done, modify, catch, warning_with_keyword, ◌>>=◌, ◌>>◌, continue, pure,
}
use nightshift_opi.Domain.Commands
use nightshift_opi.Uart.Encode.{encode_hello}
use nightshift_opi.Uart.Frame.{Frame, max_payload}
use nightshift_opi.Uart.Text.{Text}
use nightshift_opi.Uart.Gateway.{Gateway}
use nightshift_opi.Uart.Gateway.Send.{send}

-- "nightshift-opi/0.1.0"
abbrev software_version : Text
software_version =
    110 ∷ 105 ∷ 103 ∷ 104 ∷ 116 ∷ 115 ∷ 104 ∷ 105 ∷ 102 ∷ 116 ∷ 45 ∷ 111 ∷ 112 ∷ 105 ∷ 47 ∷ 48 ∷ 46
    ∷ 49 ∷ 46 ∷ 48 ∷ []

module _ {App : Type 0} where
  -- `opened` says whether `open_serial_connection` returns, and `info` whether the logger is enabled
  -- for INFO. Both log calls have a keyword that the logger does not take: the first raises into the
  -- `except` clause, and the warning there raises again.
  unfoldable pub connect : Bool → Bool → Exec (Gateway App) Bool
  connect opened info g =
      if opened
      then (let h = record g { has_writer = true; connected = true } in
          if info then warning_with_keyword h else (ok true, h))
      else warning_with_keyword g

  -- An exception of `close` is swallowed.
  unfoldable pub disconnect : Exec (Gateway App) Unit
  disconnect = modify (λ g. record g { has_writer = false; connected = false })

module _ {App : Type 0} (wait : Gateway App → Gateway App) where
  unfoldable pub handshake : Exec (Gateway App) Frame
  handshake = do
    boot_id ← gets (λ g. g.boot_id)
    payload ← lift (encode_hello 1 1 0 boot_id max_payload 0 software_version)
    send wait Commands.hello payload Commands.flag_ack_req

  -- The body of the loop, from a delay to the next one. The read loop that a new line starts is
  -- another task.
  unfoldable pub connection_round : Bool → Bool → ℕ → ℕ → ℕ → Exec (Gateway App) ℕ
  connection_round opened info reconnect_delay_ms max_reconnect_delay_ms delay g =
      if g.connected
      then (ok delay, g)
      else (do
        is_connected ← connect opened info
        if is_connected
            then (do catch (handshake >>= λ frame. done) (λ e. done); pure reconnect_delay_ms)
            else pure (min (delay * 2) max_reconnect_delay_ms))
          g
