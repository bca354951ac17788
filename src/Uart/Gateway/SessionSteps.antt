-- ===== src/Uart/Gateway/SessionSteps.antt =====
-- What acknowledgements, HELLOs and page events do to the session.
use nightshift_opi.Prelude.{ℕ, ◌≡◌, ◌⊎◌, inl, inr, false, [], ok, arith, Result-cases, Bool-cases}
use nightshift_opi.Prelude.Bytes.{Bytes}
use nightshift_opi.Domain.Commands
use nightshift_opi.Uart.Frame.{Frame, ack_wire}
use nightshift_opi.Uart.Parse.{HelloInfo, parse_hello, parse_page_event}
use nightshift_opi.Uart.Session.{same_boot, reset}
use nightshift_opi.Uart.Gateway.{
  Callbacks, Gateway, send_ack, ack_if_asked, accept_hello, dispatch_hello, dispatch_page_event,
}

module _ {App : Type 0} (cb : Callbacks App) where
  pub session-send_ack :
      (frame : Frame) (status : ℕ) (reply : Bytes) (g : Gateway App)
      → (send_ack frame status reply g).1.session ≡ g.session
  unfolding send_ack
  session-send_ack frame status reply g = ground arith

  pub session-ack_if_asked :
      (frame : Frame) (status : ℕ) (reply : Bytes) (g : Gateway App)
      → (ack_if_asked frame status reply g).1.session ≡ g.session
  unfolding ack_if_asked send_ack
  session-ack_if_asked frame status reply g = ground arith

  -- A HELLO that parses leaves the session, or replaces it by one of its boot.
  pub session-accept_hello :
      (frame : Frame) (hello : HelloInfo) (g : Gateway App)
      → let s = (accept_hello cb frame hello g).1.session in
        (s ≡ g.session)
        ⊎ ((same_boot g.session.boot_id hello.boot_id ≡ false)
            × (s ≡ reset hello.boot_id g.session))
  unfolding accept_hello send_ack
  session-accept_hello frame hello g =
      elim (Bool-cases (same_boot g.session.boot_id hello.boot_id)) [
        | inl same ↦ inl (ground arith)
        | inr other ↦ elim (Bool-cases g.has_writer) [
          | inl w ↦ elim (Result-cases (ack_wire frame Commands.ok [])) [
            | inl (wire, e) ↦ inr (other, ground arith)
            | inr (x, e) ↦ inl (ground arith)
          ]
          | inr w ↦ inr (other, ground arith)
        ]
      ]

  pub session-dispatch_hello :
      (frame : Frame) (g : Gateway App)
      → let s = (dispatch_hello cb frame g).1.session in
        (s ≡ g.session)
        ⊎ ((hello : HelloInfo) × (parse_hello frame.payload ≡ ok hello)
            × (same_boot g.session.boot_id hello.boot_id ≡ false)
            × (s ≡ reset hello.boot_id g.session))
  unfolding dispatch_hello
  session-dispatch_hello frame g = elim (Result-cases (parse_hello frame.payload)) [
    | inl (hello, e) ↦ elim (session-accept_hello frame hello g) [
      | inl same ↦ inl (rw (e, dispatch_hello) same)
      | inr (other, s) ↦ inr (hello, e, other, rw (e, dispatch_hello) s)
    ]
    | inr (x, e) ↦ inl (ground (arith, session-send_ack frame Commands.invalid_argument [] g))
  ]

  pub session-dispatch_page_event :
      (now_ms : ℕ) (frame : Frame) (g : Gateway App)
      → (dispatch_page_event cb now_ms frame g).1.session ≡ g.session
  unfolding dispatch_page_event send_ack
  session-dispatch_page_event now_ms frame g =
      elim (Result-cases (parse_page_event frame.payload)) [
        | inl (page, e) ↦ ground arith
        | inr (x, e) ↦ ground arith
      ]
