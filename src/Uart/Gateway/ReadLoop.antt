-- ===== src/Uart/Gateway/ReadLoop.antt =====
-- The read loop as a task (nightshift/hardware/uart/gateway.py, `start` and `_read_loop`).
pub mod Frames
use nightshift_opi.Prelude.{
  ℕ, ◌≡◌, ◌⊎◌, inl, refl, Bool, true, ◌&&◌, List, [], ◌∷◌, if◌then◌else◌, ok, err, type_error,
  arith,
}
use nightshift_opi.Prelude.Bytes.{Bytes}
use nightshift_opi.Prelude.Exec.{Exec, warning_with_keyword}
use nightshift_opi.Uart.Reader.{read_chunk}
use nightshift_opi.Uart.Gateway.{Gateway}
use nightshift_opi.Uart.Gateway.Connection.{connection_round}

-- What `self._reader.read(256)` comes to.
pub data Read : Type 0 where
  chunk : Bytes → Read
  failed : Read

unfoldable pub start : {App : Type 0} → Gateway App → Gateway App
start g = record g { running = true }

-- `wait` is what other tasks do while a read waits, and `receive` the `try` block on one
-- `frame_bytes`. The stream of the line is there when its writer is: `_connect` sets both and
-- `_disconnect` clears both.
module _ {App : Type 0} (wait : Gateway App → Gateway App)
    (receive : Bytes → Gateway App → Gateway App) where
  -- The chunk that a read returned, with the buffer that it leaves.
  unfoldable pub take_chunk : Bytes → Bytes → Gateway App → Bytes × Gateway App
  take_chunk [] buffer g = (buffer, g)
  take_chunk (b ∷ rest) buffer g = read_chunk receive (b ∷ rest) (buffer, g)

  -- The reads are those that come to an end, and the loop waits behind the last one. A failing read
  -- goes to the second `except` clause, where the warning raises a TypeError before anything is set.
  unfoldable pub read_loop : List Read → Bytes → Exec (Gateway App) Unit
  read_loop [] buffer g = (ok tt, g)
  read_loop (failed ∷ rest) buffer g =
      if g.running && g.connected && g.has_writer then warning_with_keyword (wait g) else (ok tt, g)
  read_loop (chunk bytes ∷ rest) buffer g =
      let (buffer', g') = take_chunk bytes buffer (wait g) in
      let looped = read_loop rest buffer' g' in
      if g.running && g.connected && g.has_writer then looped else (ok tt, g)

  -- If other tasks leave `connected` alone while a read waits, and the read loop ends by an
  -- exception, then that is a TypeError, the gateway is still counted as connected, and the round of
  -- the connection loop that follows keeps its delay and changes nothing, whether or not a line could
  -- be opened: after a read that fails the line is not opened again.
  pub read_failure_unnoticed :
      ((g : Gateway App) → (wait g).connected ≡ g.connected)
      → (reads : List Read) (buffer : Bytes) (g : Gateway App) (opened info : Bool)
        (first_ms max_ms delay : ℕ)
      → let (r, g') = read_loop reads buffer g in
        (r ≡ ok tt)
        ⊎ ((r ≡ err type_error)
            × (g'.connected ≡ true)
            × (connection_round wait opened info first_ms max_ms delay g' ≡ (ok delay, g')))
  unfolding read_loop connection_round
  read_failure_unnoticed kept [] buffer g opened info first_ms max_ms delay = inl refl
  read_failure_unnoticed kept (failed ∷ rest) buffer g opened info first_ms max_ms delay =
      ground (arith, kept g)
  read_failure_unnoticed kept (chunk bytes ∷ rest) buffer g opened info first_ms max_ms delay =
      let (buffer', g') = take_chunk bytes buffer (wait g) in
      let rec = read_failure_unnoticed kept rest buffer' g' opened info first_ms max_ms delay in
      ground (arith, rec)
