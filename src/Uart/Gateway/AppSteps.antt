-- ===== src/Uart/Gateway/AppSteps.antt =====
-- What holds across every callback holds across a whole frame.
use nightshift_opi.Prelude.{
  ℕ, ◌≡◌, sym, refl, ◌∙◌, ◌&&◌, Bool, true, false, not, Option, Option-cases, some, [], inl, inr,
  Result-cases, ◌==◌, if◌then◌else◌, Result, arith,
}
use mathlib.Core.Path.{subst}
use nightshift_opi.Prelude.Bytes.{Bytes}
use nightshift_opi.Prelude.Exec.{Exec, modify, when, ◌>>◌}
use nightshift_opi.Prelude.Exec.Keeps.{Keeps, bind-Keeps, then-Keeps}
use nightshift_opi.Domain.Commands
use nightshift_opi.Domain.Events.{
  DomainEvent, UiAction, ui_action, panel_connectivity_changed, page_event,
}
use nightshift_opi.Uart.Frame.{Frame, unstuffed}
use nightshift_opi.Uart.Parse.{HelloInfo, parse_hello, parse_page_event, parse_ui_action}
use nightshift_opi.Uart.Session.{
  Digest, DedupKey, DedupResult, execute, replay, conflict, in_flight, new_session_seen, same_boot,
  reset, record_result, check_action,
}
use nightshift_opi.Uart.Gateway.Dispatch.{to_event}
use nightshift_opi.Uart.Gateway.{
  Callbacks, Gateway, has_flag, set_result, send_ack, on_event, ack_if_asked, accept_hello,
  dispatch_hello, dispatch_page_event, run_handler, execute_action, act_on, handle_active,
  handle_ui_action, dispatch, receive,
}

-- `self._running and self._connected`, with a stream to read from
abbrev pub is_reading : {App : Type 0} → Gateway App → Bool
is_reading g = g.running && g.connected && g.has_writer

module _ {App : Type 0} (R : App → App → Type 0) (refl_of : (a : App) → R a a)
    (trans : (a b c : App) → R a b → R b c → R a c) (cb : Callbacks App)
    (events : (event : DomainEvent) (a : App) → R a (cb.on_event event a))
    (hellos : (a : App) → R a (cb.on_panel_hello a))
    (boots : (previous : Option ℕ) (boot_id : ℕ) (a : App)
      → R a (cb.on_peer_boot_id_change previous boot_id a))
    (handles : (handler : UiAction → App → Result (ℕ × Bytes) × App)
      → cb.ui_action_handler ≡ some handler
      → (event : UiAction) (a : App) → R a (handler event a).1) where
  record Along (g h : Gateway App) : Type 0 where
    step : R g.app h.app
    reading : is_reading h ≡ is_reading g

  Along-trans : (g h k : Gateway App) → Along g h → Along h k → Along g k
  Along-trans g h k a b = record {
    step = trans g.app h.app k.app a.step b.step;
    reading = b.reading ∙ a.reading;
  }

  Along-refl : (g : Gateway App) → Along g g
  Along-refl g = record { step = refl_of g.app; reading = refl }

  -- A method that leaves the application and the line alone.
  same :
      {A : Type 0} (m : Exec (Gateway App) A)
      → ((g : Gateway App) → (m g).1.app ≡ g.app)
      → ((g : Gateway App) → is_reading (m g).1 ≡ is_reading g)
      → Keeps Along m
  same m h k g = record { step = subst (R g.app) (sym (h g)) (refl_of g.app); reading = k g }

  send_ack_app :
      (frame : Frame) (status : ℕ) (reply : Bytes) (g : Gateway App)
      → (send_ack frame status reply g).1.app ≡ g.app
  unfolding send_ack
  send_ack_app frame status reply g = ground arith

  send_ack_reading :
      (frame : Frame) (status : ℕ) (reply : Bytes) (g : Gateway App)
      → is_reading (send_ack frame status reply g).1 ≡ is_reading g
  unfolding send_ack
  send_ack_reading frame status reply g = ground arith

  send_ack-Keeps :
      (frame : Frame) (status : ℕ) (reply : Bytes) → Keeps Along (send_ack frame status reply)
  send_ack-Keeps frame status reply =
      same (send_ack frame status reply) (send_ack_app frame status reply)
        (send_ack_reading frame status reply)

  when-Keeps :
      (test : Bool) (m : Exec (Gateway App) Unit) → Keeps Along m → Keeps Along (when test m)
  when-Keeps true m h g = h g
  when-Keeps false m h g = Along-refl g

  ack_if_asked-Keeps :
      (frame : Frame) (status : ℕ) (reply : Bytes) → Keeps Along (ack_if_asked frame status reply)
  unfolding ack_if_asked
  ack_if_asked-Keeps frame status reply = when-Keeps _ _ (send_ack-Keeps frame status reply)

  ack_app :
      (frame : Frame) (status : ℕ) (reply : Bytes) (g : Gateway App)
      → (ack_if_asked frame status reply g).1.app ≡ g.app
  unfolding ack_if_asked
  ack_app frame status reply g = ground (arith, send_ack_app frame status reply g)

  ack_reading :
      (frame : Frame) (status : ℕ) (reply : Bytes) (g : Gateway App)
      → is_reading (ack_if_asked frame status reply g).1 ≡ is_reading g
  unfolding ack_if_asked
  ack_reading frame status reply g = ground (arith, send_ack_reading frame status reply g)

  on_event-Keeps : (event : DomainEvent) → Keeps Along (on_event cb event)
  unfolding on_event
  on_event-Keeps event g = record { step = events event g.app; reading = refl }

  accept_hello-Keeps :
      (frame : Frame) (hello : HelloInfo) → Keeps Along (accept_hello cb frame hello)
  unfolding accept_hello
  accept_hello-Keeps frame hello =
      then-Keeps Along Along-trans (send_ack frame Commands.ok []) _
        (send_ack-Keeps frame Commands.ok [])
        (λ g.
          let previous = g.session.boot_id in
          let is_new = not (same_boot previous hello.boot_id) in
          let replaced : Exec (Gateway App) Unit = modify (λ g. record g {
            session = reset hello.boot_id g.session;
            app = cb.on_peer_boot_id_change previous hello.boot_id g.app;
          }) in
          let greeted : Exec (Gateway App) Unit =
            modify (λ g. record g { app = cb.on_panel_hello g.app }) in
          let shown : Exec (Gateway App) Unit = modify (λ g. record g { panel_online = true }) in
          let tells = on_event cb (panel_connectivity_changed true) in
          then-Keeps Along Along-trans (when is_new replaced) _
            (when-Keeps is_new replaced
              (λ g. record { step = boots previous hello.boot_id g.app; reading = refl }))
            (then-Keeps Along Along-trans (when is_new greeted) _
              (when-Keeps is_new greeted (λ g. record { step = hellos g.app; reading = refl }))
              (λ g.
                when-Keeps (not g.panel_online) (shown >> tells)
                  (then-Keeps Along Along-trans shown tells
                    (λ g. record { step = refl_of g.app; reading = refl })
                    (on_event-Keeps (panel_connectivity_changed true)))
                  g))
            g)

  -- To pass to an equal outcome.
  reach :
      {A : Type 0} (g : Gateway App) (x y : Result A × Gateway App)
      → y ≡ x
      → Along g x.1
      → Along g y.1
  reach {A} g x y e h = subst (λ (z : Result A × Gateway App). Along g z.1) (sym e) h

  dispatch_hello-Keeps : (frame : Frame) → Keeps Along (dispatch_hello cb frame)
  unfolding dispatch_hello
  dispatch_hello-Keeps frame g = elim (Result-cases (parse_hello frame.payload)) [
    | inl (hello, e) ↦
        let at : dispatch_hello cb frame g ≡ accept_hello cb frame hello g = ground arith in
        reach g _ _ at (accept_hello-Keeps frame hello g)
    | inr (x, e) ↦
        let at : (dispatch_hello cb frame g).1.app ≡ g.app =
          ground (arith, send_ack_app frame Commands.invalid_argument [] g) in
        record {
          step = subst (R g.app) (sym at) (refl_of g.app);
          reading = ground (arith, send_ack_reading frame Commands.invalid_argument [] g);
        }
  ]

  run_handler-Keeps : (event : UiAction) → Keeps Along (run_handler cb event)
  unfolding run_handler
  run_handler-Keeps event g = elim (Option-cases cb.ui_action_handler) [
    | inl absent ↦
        let at : (run_handler cb event g).1.app ≡ g.app = ground arith in
        record { step = subst (R g.app) (sym at) (refl_of g.app); reading = ground arith }
    | inr (handler, present) ↦
        let at : (run_handler cb event g).1.app ≡ (handler event g.app).1 = ground arith in
        record {
          step = subst (R g.app) (sym at) (handles handler present event g.app);
          reading = ground arith;
        }
  ]

  execute_action-Keeps :
      (frame : Frame) (event : UiAction) (key : DedupKey) (digest : Digest)
      → Keeps Along (execute_action cb frame event key digest)
  unfolding execute_action
  execute_action-Keeps frame event key digest g =
      let told = record g { app = cb.on_event (ui_action event) g.app } in
      Along-trans g told _ (record { step = events (ui_action event) g.app; reading = refl })
        (bind-Keeps Along Along-trans (run_handler cb event) _ (run_handler-Keeps event)
          (λ (status, reply) h.
            let entered = record h { session = record_result key digest status reply h.session } in
            let kept = ack_if_asked-Keeps frame status reply entered in
            record { step = kept.step; reading = kept.reading })
          told)

  act_on-Keeps :
      (frame : Frame) (event : UiAction) (result : DedupResult)
      → Keeps Along (act_on cb frame event result)
  unfolding act_on
  act_on-Keeps frame event (replay status reply) = ack_if_asked-Keeps frame status reply
  act_on-Keeps frame event conflict = ack_if_asked-Keeps frame Commands.state_conflict []
  act_on-Keeps frame event in_flight = ack_if_asked-Keeps frame Commands.busy []
  act_on-Keeps frame event (execute key digest) = execute_action-Keeps frame event key digest
  act_on-Keeps frame event new_session_seen = Along-refl

  dispatch_page_event-Keeps :
      (now_ms : ℕ) (frame : Frame) → Keeps Along (dispatch_page_event cb now_ms frame)
  unfolding dispatch_page_event on_event
  dispatch_page_event-Keeps now_ms frame g = elim (Result-cases (parse_page_event frame.payload)) [
    | inl (page, e) ↦
        let event = page_event page.page_id page.event page.object_id now_ms in
        let told = record g { app = cb.on_event event g.app } in
        let at : (dispatch_page_event cb now_ms frame g).1.app ≡ told.app =
          ground (arith, send_ack_app frame Commands.ok [] told) in
        record {
          step = subst (R g.app) (sym at) (events event g.app);
          reading = ground (arith, send_ack_reading frame Commands.ok [] told);
        }
    | inr (x, e) ↦
        let at : (dispatch_page_event cb now_ms frame g).1.app ≡ g.app =
          ground (arith, send_ack_app frame Commands.ok [] g) in
        record {
          step = subst (R g.app) (sym at) (refl_of g.app);
          reading = ground (arith, send_ack_reading frame Commands.ok [] g);
        }
  ]

  module _ (sha256_hex : Bytes → Digest) where
    handle_active-Keeps :
        (frame : Frame) (event : UiAction) (boot_id : ℕ)
        → Keeps Along (handle_active sha256_hex cb frame event boot_id)
    unfolding handle_active
    handle_active-Keeps frame event boot_id g =
        let (result, session) =
          check_action sha256_hex boot_id frame.sequence frame.command frame.payload g.session in
        let kept = act_on-Keeps frame event result (record g { session = session }) in
        record { step = kept.step; reading = kept.reading }

    handle_ui_action-Keeps : (frame : Frame) → Keeps Along (handle_ui_action sha256_hex cb frame)
    unfolding handle_ui_action
    handle_ui_action-Keeps frame g = elim (Result-cases (parse_ui_action frame.payload)) [
      | inr (x, e) ↦
          let at : (handle_ui_action sha256_hex cb frame g).1.app ≡ g.app =
            ground (arith, ack_app frame Commands.invalid_length [] g) in
          record {
            step = subst (R g.app) (sym at) (refl_of g.app);
            reading = ground (arith, ack_reading frame Commands.invalid_length [] g);
          }
      | inl (a, e) ↦ elim (Option-cases g.session.boot_id) [
        | inl none_yet ↦
            let at : (handle_ui_action sha256_hex cb frame g).1.app ≡ g.app =
              ground (arith, ack_app frame Commands.not_ready [] g) in
            record {
              step = subst (R g.app) (sym at) (refl_of g.app);
              reading = ground (arith, ack_reading frame Commands.not_ready [] g);
            }
        | inr (boot_id, active) ↦
            let at : handle_ui_action sha256_hex cb frame g
                ≡ handle_active sha256_hex cb frame (to_event a) boot_id g =
              ground arith in
            reach g _ _ at (handle_active-Keeps frame (to_event a) boot_id g)
      ]
    ]

    choose :
        (test : Bool) (m n : Exec (Gateway App) (Unit {0}))
        → Keeps Along m
        → Keeps Along n
        → Keeps Along (if test then m else n)
    choose true m n h k g = h g
    choose false m n h k g = k g

    dispatch-Keeps :
        (now_ms : ℕ) (frame : Frame) → Keeps Along (dispatch sha256_hex cb now_ms frame)
    unfolding dispatch
    dispatch-Keeps now_ms frame =
        let Method : Type 0 = Exec (Gateway App) (Unit {0}) in
        let answered : Method =
          modify (λ g. record g { pending = set_result frame.sequence frame g.pending }) in
        let other : Method = ack_if_asked frame Commands.ok [] in
        let page : Method = dispatch_page_event cb now_ms frame in
        let at_page : Method = if frame.command == Commands.page_event then page else other in
        let action : Method = handle_ui_action sha256_hex cb frame in
        let at_action : Method = if frame.command == Commands.ui_action then action else at_page in
        let hello : Method = dispatch_hello cb frame in
        let at_hello : Method = if frame.command == Commands.hello then hello else at_action in
        choose (has_flag frame.flags Commands.flag_response) answered at_hello
          (λ g. record { step = refl_of g.app; reading = refl })
          (choose (frame.command == Commands.hello) hello at_action (dispatch_hello-Keeps frame) (
            choose (frame.command == Commands.ui_action) action at_page
              (handle_ui_action-Keeps frame)
              (choose (frame.command == Commands.page_event) page other
                (dispatch_page_event-Keeps now_ms frame)
                (ack_if_asked-Keeps frame Commands.ok []))))

    receive-Along :
        (now_ms : ℕ) (frame_bytes : Bytes) (g : Gateway App)
        → Along g (receive sha256_hex cb now_ms frame_bytes g)
    unfolding receive
    receive-Along now_ms frame_bytes g = elim (Result-cases (unstuffed frame_bytes)) [
      | inl (frame, e) ↦
          let at : receive sha256_hex cb now_ms frame_bytes g
              ≡ (dispatch sha256_hex cb now_ms frame g).1 =
            ground arith in
          subst (Along g) (sym at) (dispatch-Keeps now_ms frame g)
      | inr (x, e) ↦
          let at : receive sha256_hex cb now_ms frame_bytes g ≡ g = ground arith in
          subst (Along g) (sym at) (Along-refl g)
    ]

    -- Whatever bytes arrive, the relation holds from the application before to the one after.
    pub receive_app :
        (now_ms : ℕ) (frame_bytes : Bytes) (g : Gateway App)
        → R g.app (receive sha256_hex cb now_ms frame_bytes g).app
    receive_app now_ms frame_bytes g = (receive-Along now_ms frame_bytes g).step

    pub receive_reading :
        (now_ms : ℕ) (frame_bytes : Bytes) (g : Gateway App)
        → is_reading (receive sha256_hex cb now_ms frame_bytes g) ≡ is_reading g
    receive_reading now_ms frame_bytes g = (receive-Along now_ms frame_bytes g).reading
