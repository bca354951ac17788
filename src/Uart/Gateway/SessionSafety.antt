-- ===== src/Uart/Gateway/SessionSafety.antt =====
-- The session across one frame: its invariant, and when it may be replaced.
use nightshift_opi.Prelude.{
  ℕ, ◌≡◌, ◌⊎◌, inl, inr, refl, sym, ap, ◌∙◌, false, some, [], ◌==◌, ==_iff, Result, ok, arith,
  Result-cases, Option-cases, Bool-cases,
}
use nightshift_opi.Prelude.Bytes.{Bytes}
use nightshift_opi.Domain.Commands
use nightshift_opi.Domain.Events.{UiAction, ui_action}
use nightshift_opi.Uart.Frame.{Frame}
use nightshift_opi.Uart.Parse.{HelloInfo, parse_hello, parse_ui_action}
use nightshift_opi.Uart.Session.{
  Digest, DedupKey, DedupResult, UartSession, execute, replay, conflict, in_flight,
  new_session_seen, check_action, record_result, reset,
}
use nightshift_opi.Uart.Session.Invariant.{
  IsValid, reset-IsValid, check_action-IsValid, record_result-IsValid,
}
use mathlib.Core.Path.{subst}
use nightshift_opi.Uart.Gateway.Dispatch.{when_active, to_event}
use nightshift_opi.Uart.Gateway.{
  Callbacks, Gateway, has_flag, dispatch_hello, handle_active, act_on, execute_action,
  handle_ui_action, dispatch, run_handler,
}
use nightshift_opi.Uart.Gateway.SessionSteps.{
  session-ack_if_asked, session-dispatch_hello, session-dispatch_page_event,
}

module _ {App : Type 0} (cb : Callbacks App) where
  -- Valid, and of the boot that the session had.
  abbrev KeepsBoot : UartSession → UartSession → Type 0
  KeepsBoot s t = IsValid t × (t.boot_id ≡ s.boot_id)

  keeps_along : (s t u : UartSession) → u ≡ t → IsValid t → t.boot_id ≡ s.boot_id → KeepsBoot s u
  keeps_along s t u e v b = (subst IsValid (sym e) v, ap (λ (x : UartSession). x.boot_id) e ∙ b)

  -- The session when the answer to an action is sent, read off the handler's result.
  session-execute_action :
      (frame : Frame) (event : UiAction) (key : DedupKey) (digest : Digest) (g : Gateway App)
      → let s = (execute_action cb frame event key digest g).1.session in
        (s ≡ g.session)
        ⊎ ((status : ℕ) × (reply : Bytes) × (s ≡ record_result key digest status reply g.session))
  unfolding execute_action run_handler
  session-execute_action frame event key digest g = elim (Option-cases cb.ui_action_handler) [
    | inl e ↦ inr (
      Commands.not_ready,
      [],
      ground (
        arith,
        session-ack_if_asked cb frame Commands.not_ready [] (record g {
          session = record_result key digest Commands.not_ready [] g.session;
          app = cb.on_event (ui_action event) g.app;
        }),
      ),
    )
    | inr (handler, e) ↦
        let r = handler event (cb.on_event (ui_action event) g.app) in
        elim (Result-cases r.0) [
          | inl ((status, reply), h) ↦ inr (
            status,
            reply,
            ground (
              arith,
              session-ack_if_asked cb frame status reply (record g {
                session = record_result key digest status reply g.session;
                app = r.1;
              }),
            ),
          )
          | inr (x, h) ↦ inl (ground arith)
        ]
  ]

  execute_action_keeps :
      (frame : Frame) (event : UiAction) (key : DedupKey) (digest : Digest) (g : Gateway App)
      → g.session.boot_id ≡ some key.boot_id
      → IsValid g.session
      → KeepsBoot g.session (execute_action cb frame event key digest g).1.session
  execute_action_keeps frame event key digest g b v =
      elim (session-execute_action frame event key digest g) [
        | inl same ↦ keeps_along g.session g.session _ same v refl
        | inr (status, reply, s) ↦
            keeps_along g.session _ _ s
              (record_result-IsValid key digest status reply g.session b v)
              (unfold record_result in refl)
      ]

  act_on_keeps :
      (frame : Frame) (event : UiAction) (d : DedupResult) (g : Gateway App)
      → ((key : DedupKey) (digest : Digest)
          → d ≡ execute key digest
          → g.session.boot_id ≡ some key.boot_id)
      → IsValid g.session
      → KeepsBoot g.session (act_on cb frame event d g).1.session
  unfolding act_on
  act_on_keeps frame event (execute key digest) g b v =
      execute_action_keeps frame event key digest g (b key digest refl) v
  act_on_keeps frame event (replay status reply) g b v =
      keeps_along g.session g.session _ (session-ack_if_asked cb frame status reply g) v refl
  act_on_keeps frame event conflict g b v =
      keeps_along g.session g.session _ (session-ack_if_asked cb frame Commands.state_conflict [] g)
        v refl
  act_on_keeps frame event in_flight g b v =
      keeps_along g.session g.session _ (session-ack_if_asked cb frame Commands.busy [] g) v refl
  act_on_keeps frame event new_session_seen g b v = (v, refl)

  module _ (sha256_hex : Bytes → Digest) where
    check_action_boot :
        (boot_id sequence command : ℕ) (payload : Bytes) (s : UartSession)
        → let (d, s') = check_action sha256_hex boot_id sequence command payload s in
          (s'.boot_id ≡ s.boot_id)
          × ((key : DedupKey) (digest : Digest) → d ≡ execute key digest → key.boot_id ≡ boot_id)
    unfolding check_action
    check_action_boot boot_id sequence command payload s =
        (ground arith, λ key digest e. ground arith)

    handle_active_keeps :
        (frame : Frame) (event : UiAction) (boot_id : ℕ) (g : Gateway App)
        → g.session.boot_id ≡ some boot_id
        → IsValid g.session
        → KeepsBoot g.session (handle_active sha256_hex cb frame event boot_id g).1.session
    unfolding handle_active
    handle_active_keeps frame event boot_id g b v =
        let x =
          check_action sha256_hex boot_id frame.sequence frame.command frame.payload g.session in
        let (same, keys) =
          check_action_boot boot_id frame.sequence frame.command frame.payload g.session in
        let (valid, boot) =
          act_on_keeps frame event x.0 (record g { session = x.1 })
            (λ key digest e. ground (arith, keys key digest e))
            (check_action-IsValid sha256_hex boot_id frame.sequence frame.command frame.payload
              g.session v) in
        (valid, boot ∙ same)

    handle_ui_action_keeps :
        (frame : Frame) (g : Gateway App)
        → IsValid g.session
        → KeepsBoot g.session (handle_ui_action sha256_hex cb frame g).1.session
    unfolding handle_ui_action
    handle_ui_action_keeps frame g v = elim (Result-cases (parse_ui_action frame.payload)) [
      | inl (a, e) ↦ elim (Option-cases g.session.boot_id) [
        | inl n ↦
            keeps_along g.session g.session _
              (ground (arith, session-ack_if_asked cb frame Commands.not_ready [] g)) v refl
        | inr (boot_id, b) ↦
            subst (λ (x : Result Unit × Gateway App). KeepsBoot g.session x.1.session)
              (sym (when_active sha256_hex cb frame a boot_id g e b))
              (handle_active_keeps frame (to_event a) boot_id g b v)
      ]
      | inr (x, e) ↦
          keeps_along g.session g.session _
            (ground (arith, session-ack_if_asked cb frame Commands.invalid_length [] g)) v refl
    ]

    -- Whatever frame arrives, the session stays valid, and it is of another boot afterwards only if
    -- the frame is a HELLO, is no response, and names that other boot.
    pub dispatch_session :
        (now_ms : ℕ) (frame : Frame) (g : Gateway App)
        → IsValid g.session
        → let s = (dispatch sha256_hex cb now_ms frame g).1.session in
          IsValid s
          × ((s.boot_id ≡ g.session.boot_id)
              ⊎ ((hello : HelloInfo) × (frame.command ≡ Commands.hello)
                  × (has_flag frame.flags Commands.flag_response ≡ false)
                  × (parse_hello frame.payload ≡ ok hello)
                  × (s.boot_id ≡ some hello.boot_id)))
    unfolding dispatch
    dispatch_session now_ms frame g v =
        elim (Bool-cases (has_flag frame.flags Commands.flag_response)) [
          | inl response ↦ keeps (keeps_along g.session g.session _ (ground arith) v refl)
          | inr request ↦ elim (Bool-cases (frame.command == Commands.hello)) [
            | inl is_hello ↦
                let e : u ≡ (dispatch_hello cb frame g).1.session = ground arith in
                elim (session-dispatch_hello cb frame g) [
                  | inl same ↦ keeps (keeps_along g.session g.session _ (e ∙ same) v refl)
                  | inr (hello, parsed, other, s) ↦ (
                    subst IsValid (sym (e ∙ s)) (reset-IsValid hello.boot_id g.session v),
                    inr (
                      hello,
                      (==_iff _ _).0 is_hello,
                      request,
                      parsed,
                      ap (λ (x : UartSession). x.boot_id) (e ∙ s) ∙ (unfold reset in refl),
                    ),
                  )
                ]
            | inr not_hello ↦ elim (Bool-cases (frame.command == Commands.ui_action)) [
              | inl is_action ↦
                  let (valid, boot) = handle_ui_action_keeps frame g v in
                  keeps (keeps_along g.session _ _ (ground arith) valid boot)
              | inr not_action ↦ keeps (
                  keeps_along g.session g.session _
                    (ground (
                      arith,
                      session-dispatch_page_event cb now_ms frame g,
                      session-ack_if_asked cb frame Commands.ok [] g,
                    ))
                    v refl)
            ]
          ]
        ]
      where
        u : UartSession
        u = (dispatch sha256_hex cb now_ms frame g).1.session

        keeps :
            KeepsBoot g.session u
            → IsValid u
              × ((u.boot_id ≡ g.session.boot_id)
                  ⊎ ((hello : HelloInfo) × (frame.command ≡ Commands.hello)
                      × (has_flag frame.flags Commands.flag_response ≡ false)
                      × (parse_hello frame.payload ≡ ok hello)
                      × (u.boot_id ≡ some hello.boot_id)))
        keeps k = (k.0, inl k.1)
