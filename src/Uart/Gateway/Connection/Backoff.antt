-- ===== src/Uart/Gateway/Connection/Backoff.antt =====
-- The delay of the connection loop.
use nightshift_opi.Prelude.{ℕ, ◌≡◌, ◌⊎◌, Bool, true, false, ok, err, type_error, arith}
use nightshift_opi.Uart.Gateway.{Gateway}
use nightshift_opi.Uart.Gateway.Connection.{connect, connection_round}

module _ {App : Type 0} (wait : Gateway App → Gateway App) where
  -- A round of the connection loop never doubles the delay. With a line it keeps the delay. Without
  -- one, if a line opens and the logger is not enabled for INFO, it goes back to the first delay; if
  -- none opens, a TypeError ends the loop and the gateway is as it was; and if one opens with INFO
  -- enabled, a TypeError ends the loop with the line open.
  pub backoff_unreached :
      (opened info : Bool) (first_ms max_ms delay : ℕ) (g : Gateway App)
      → let (r, g') = connection_round wait opened info first_ms max_ms delay g in
        ((g.connected ≡ true) × (r ≡ ok delay) × (g' ≡ g))
        ⊎ (((g.connected ≡ false) × (opened ≡ true) × (info ≡ false) × (r ≡ ok first_ms))
            ⊎ ((g.connected ≡ false)
                × (r ≡ err type_error)
                × (((opened ≡ false) × (g' ≡ g))
                    ⊎ ((opened ≡ true)
                        × (info ≡ true)
                        × (g' ≡ record g { has_writer = true; connected = true })))))
  unfolding connection_round connect
  backoff_unreached opened info first_ms max_ms delay g = ground arith
