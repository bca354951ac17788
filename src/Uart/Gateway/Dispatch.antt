-- ===== src/Uart/Gateway/Dispatch.antt =====
-- What the gateway does with one frame: actions are handled once, and sessions change only by a
-- HELLO of another boot.
use nightshift_opi.Prelude.{
  ℕ, ◌≡◌, ◌≢◌, refl, ap, ◌∙◌, true, false, none, some, [], ◌∷◌, Error, Result, ok, err, type_error,
  arith,
}
use nightshift_opi.Prelude.Bytes.{Bytes}
use nightshift_opi.Domain.Commands
use nightshift_opi.Domain.Events.{UiAction, ui_action}
use nightshift_opi.Uart.Frame.{Frame}
use nightshift_opi.Uart.Parse.{UiActionPayload, parse_ui_action}
use nightshift_opi.Uart.Session.{
  Digest, DedupKey, DedupResult, UartSession, new_session_seen, replay, in_flight, check_action,
  record_result, compute_digest, lookup, store, member, DedupEntry, Cache,
}
use nightshift_opi.Uart.Session.Invariant.{lookup-store}
use nightshift_opi.Uart.Session.Replay.{digest_eq_refl}
use nightshift_opi.Uart.Gateway.{
  Callbacks, Gateway, send_ack, handle_active, act_on, ack_if_asked, handle_ui_action, run_handler,
}

lookup-store_self :
    (k : DedupKey) (e : DedupEntry) (cache : Cache) → lookup k (store k e cache) ≡ some e
lookup-store_self k e cache = ground (arith, lookup-store k k e cache)

-- The key of a UI action in the session of a boot.
abbrev pub action_key : ℕ → Frame → DedupKey
action_key boot_id frame = record {
  boot_id = boot_id;
  sequence = frame.sequence;
  command = frame.command;
}

abbrev pub to_event : UiActionPayload → UiAction
to_event a = record {
  action = a.action;
  object_type = a.object_type;
  object_id = a.object_id;
  value = a.value;
  text = a.text;
}

module _ (sha256_hex : Bytes → Digest) where
  check_action_own_boot :
      (boot_id sequence command : ℕ) (payload : Bytes) (s : UartSession)
      → s.boot_id ≡ some boot_id
      → (check_action sha256_hex boot_id sequence command payload s).0 ≢ new_session_seen
  unfolding check_action
  check_action_own_boot boot_id sequence command payload s h e = ground arith

  module _ {App : Type 0} (cb : Callbacks App) where
    -- An acknowledgement changes only what was written.
    ack_keeps :
        (frame : Frame) (status : ℕ) (reply : Bytes) (g : Gateway App)
        → let g' = (ack_if_asked frame status reply g).1 in
          (g'.session ≡ g.session) × (g'.app ≡ g.app) × (g'.has_writer ≡ g.has_writer)
    unfolding ack_if_asked send_ack
    ack_keeps frame status reply g = ground arith

    check_replay :
        (boot_id status : ℕ) (frame : Frame) (reply : Bytes) (s : UartSession)
        → s.boot_id ≡ some boot_id
        → lookup (action_key boot_id frame) s.dedup_cache
          ≡ some (record {
            digest = compute_digest sha256_hex frame.payload;
            status = status;
            reply_data = reply;
          })
        → check_action sha256_hex boot_id frame.sequence frame.command frame.payload s
          ≡ (replay status reply, s)
    unfolding check_action
    check_replay boot_id status frame reply s b l =
        ground (arith, digest_eq_refl (compute_digest sha256_hex frame.payload))

    pub when_active :
        (frame : Frame) (a : UiActionPayload) (boot_id : ℕ) (g : Gateway App)
        → parse_ui_action frame.payload ≡ ok a
        → g.session.boot_id ≡ some boot_id
        → handle_ui_action sha256_hex cb frame g
          ≡ handle_active sha256_hex cb frame (to_event a) boot_id g
    unfolding handle_ui_action
    when_active frame a boot_id g p b = ground arith

    -- A frame whose action has a result in the table is answered with that result.
    replayed :
        (frame : Frame) (a : UiActionPayload) (boot_id status : ℕ) (reply : Bytes) (g : Gateway App)
        → parse_ui_action frame.payload ≡ ok a
        → g.session.boot_id ≡ some boot_id
        → lookup (action_key boot_id frame) g.session.dedup_cache
          ≡ some (record {
            digest = compute_digest sha256_hex frame.payload;
            status = status;
            reply_data = reply;
          })
        → handle_ui_action sha256_hex cb frame g ≡ ack_if_asked frame status reply g
    unfolding handle_active
    replayed frame a boot_id status reply g p b l =
        when_active frame a boot_id g p b
        ∙ ap
            (λ (x : DedupResult × UartSession).
              act_on cb frame (to_event a) x.0 (record g { session = x.1 }))
            (check_replay boot_id status frame reply g.session b l)

    -- The gateway when the result of an action is entered.
    abbrev pub after_result : Frame → ℕ → ℕ → Bytes → App → Gateway App → Gateway App
    after_result frame boot_id status reply app g = record g {
      session =
          record_result (action_key boot_id frame) (compute_digest sha256_hex frame.payload) status
            reply (record g.session { in_flight = action_key boot_id frame ∷ g.session.in_flight });
      app = app;
    }

    -- The first time that an action is handled.
    handled :
        (frame : Frame) (a : UiActionPayload) (boot_id status : ℕ) (reply : Bytes) (g : Gateway App)
        (handler : UiAction → App → Result (ℕ × Bytes) × App) (app : App)
        → parse_ui_action frame.payload ≡ ok a
        → g.session.boot_id ≡ some boot_id
        → lookup (action_key boot_id frame) g.session.dedup_cache ≡ none
        → member (action_key boot_id frame) g.session.in_flight ≡ false
        → cb.ui_action_handler ≡ some handler
        → handler (to_event a) (cb.on_event (ui_action (to_event a)) g.app)
          ≡ (ok (status, reply), app)
        → handle_ui_action sha256_hex cb frame g
          ≡ ack_if_asked frame status reply (after_result frame boot_id status reply app g)
    unfolding handle_ui_action check_action run_handler
    handled frame a boot_id status reply g handler app p b l m c h = ground arith

    failed :
        (frame : Frame) (a : UiActionPayload) (boot_id : ℕ) (e : Error) (g : Gateway App)
        (handler : UiAction → App → Result (ℕ × Bytes) × App) (app : App)
        → parse_ui_action frame.payload ≡ ok a
        → g.session.boot_id ≡ some boot_id
        → lookup (action_key boot_id frame) g.session.dedup_cache ≡ none
        → member (action_key boot_id frame) g.session.in_flight ≡ false
        → cb.ui_action_handler ≡ some handler
        → handler (to_event a) (cb.on_event (ui_action (to_event a)) g.app) ≡ (err e, app)
        → handle_ui_action sha256_hex cb frame g ≡ (
          err type_error,
          record g {
            session = record g.session {
              in_flight = action_key boot_id frame ∷ g.session.in_flight;
            };
            app = app;
          },
        )
    unfolding handle_ui_action check_action run_handler
    failed frame a boot_id e g handler app p b l m c h = ground arith

    check_busy :
        (boot_id : ℕ) (frame : Frame) (s : UartSession)
        → s.boot_id ≡ some boot_id
        → lookup (action_key boot_id frame) s.dedup_cache ≡ none
        → member (action_key boot_id frame) s.in_flight ≡ true
        → check_action sha256_hex boot_id frame.sequence frame.command frame.payload s
          ≡ (in_flight, s)
    unfolding check_action
    check_busy boot_id frame s b l m = ground arith

    busy_again :
        (frame : Frame) (a : UiActionPayload) (boot_id : ℕ) (g : Gateway App)
        → parse_ui_action frame.payload ≡ ok a
        → g.session.boot_id ≡ some boot_id
        → lookup (action_key boot_id frame) g.session.dedup_cache ≡ none
        → member (action_key boot_id frame) g.session.in_flight ≡ true
        → handle_ui_action sha256_hex cb frame g ≡ ack_if_asked frame Commands.busy [] g
    unfolding handle_active
    busy_again frame a boot_id g p b l m =
        when_active frame a boot_id g p b
        ∙ ap
            (λ (x : DedupResult × UartSession).
              act_on cb frame (to_event a) x.0 (record g { session = x.1 }))
            (check_busy boot_id frame g.session b l m)

    -- A new UI action whose handler returns: the handler has changed the application once, and the
    -- same frame received again is answered with the same status and reply from the table, with
    -- application and session unchanged. Each answer is the acknowledgement, where one is asked for.
    pub handled_once :
        (frame : Frame) (a : UiActionPayload) (boot_id status : ℕ) (reply : Bytes) (g : Gateway App)
        (handler : UiAction → App → Result (ℕ × Bytes) × App) (app : App)
        → parse_ui_action frame.payload ≡ ok a
        → g.session.boot_id ≡ some boot_id
        → lookup (action_key boot_id frame) g.session.dedup_cache ≡ none
        → member (action_key boot_id frame) g.session.in_flight ≡ false
        → cb.ui_action_handler ≡ some handler
        → handler (to_event a) (cb.on_event (ui_action (to_event a)) g.app)
          ≡ (ok (status, reply), app)
        → let g1 = (handle_ui_action sha256_hex cb frame g).1 in
          let g2 = (handle_ui_action sha256_hex cb frame g1).1 in
          (g1.app ≡ app)
          × (handle_ui_action sha256_hex cb frame g1 ≡ ack_if_asked frame status reply g1)
          × (g2.app ≡ app)
          × (g2.session ≡ g1.session)
    handled_once frame a boot_id status reply g handler app p b l m c h =
        let first = handled frame a boot_id status reply g handler app p b l m c h in
        let g1 = (handle_ui_action sha256_hex cb frame g).1 in
        let (session1, app1, _) =
          ack_keeps frame status reply (after_result frame boot_id status reply app g) in
        let again : handle_ui_action sha256_hex cb frame g1 ≡ ack_if_asked frame status reply g1 =
          replayed frame a boot_id status reply g1 p
            (rw first (rw session1 (unfold record_result in b)))
            (rw first (
              rw session1
                (unfold record_result in lookup-store_self (action_key boot_id frame) _ _))) in
        let (session2, app2, _) = ack_keeps frame status reply g1 in
        (rw first app1, again, rw again (app2 ∙ rw first app1), rw again session2)

    -- A new UI action whose handler raises is never answered: the exception that ends the dispatch
    -- leaves its key among those being handled, nothing is written, and the same frame received
    -- again is answered BUSY, where an answer is asked for, without a call of the handler.
    pub handler_failure_blocks :
        (frame : Frame) (a : UiActionPayload) (boot_id : ℕ) (e : Error) (g : Gateway App)
        (handler : UiAction → App → Result (ℕ × Bytes) × App) (app : App)
        → parse_ui_action frame.payload ≡ ok a
        → g.session.boot_id ≡ some boot_id
        → lookup (action_key boot_id frame) g.session.dedup_cache ≡ none
        → member (action_key boot_id frame) g.session.in_flight ≡ false
        → cb.ui_action_handler ≡ some handler
        → handler (to_event a) (cb.on_event (ui_action (to_event a)) g.app) ≡ (err e, app)
        → let (r, g1) = handle_ui_action sha256_hex cb frame g in
          (r ≡ err type_error)
          × (g1.written ≡ g.written)
          × (handle_ui_action sha256_hex cb frame g1 ≡ ack_if_asked frame Commands.busy [] g1)
    handler_failure_blocks frame a boot_id e g handler app p b l m c h =
        let first = failed frame a boot_id e g handler app p b l m c h in
        rw first (refl, refl, busy_again frame a boot_id _ p b l (unfold member in ground arith))
