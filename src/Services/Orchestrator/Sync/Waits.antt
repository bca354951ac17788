-- ===== src/Services/Orchestrator/Sync/Waits.antt =====
-- What holds from the old state to the new one across every single wait holds across all that is
-- sent to the panel.
use nightshift_opi.Prelude.{ℕ, Option, List, [], ◌∷◌, Result}
use nightshift_opi.Prelude.Bytes.{Bytes}
use nightshift_opi.Prelude.Exec.{Exec, ◌>>◌}
use nightshift_opi.Prelude.Exec.Keeps.{Keeps, bind-Keeps, then-Keeps}
use nightshift_opi.Domain.Models.{SystemState}
use nightshift_opi.Services.Tasks.{Task}
use nightshift_opi.Services.Notices.{Notice}
use nightshift_opi.Services.Orchestrator.{Orchestrator, Environment}
use nightshift_opi.Services.Orchestrator.Sync.{
  transmit, send_core_state, send_items, send_snapshot, full_sync, publish_state, recent_tasks,
  latest_notice, current_dashboard,
}

module _ (R : Orchestrator → Orchestrator → Type 0) (refl_of : (o : Orchestrator) → R o o)
    (trans : (o p q : Orchestrator) → R o p → R p q → R o q) (env : Environment)
    (sends : (command : ℕ) (payload : Bytes) → Keeps R (env.send command payload))
    (states : (s : SystemState) (o : Orchestrator) → R o (env.state_listeners s o)) where
  transmit-Keeps :
      (command : ℕ) (payload : Orchestrator → Result Bytes) → Keeps R (transmit env command payload)
  unfolding transmit
  transmit-Keeps command payload =
      bind-Keeps R trans (λ o. (payload o, o)) (env.send command) refl_of
        (λ bytes. sends command bytes)

  and_then :
      {B : Type 0} (command : ℕ) (payload : Orchestrator → Result Bytes) (n : Exec Orchestrator B)
      → Keeps R n
      → Keeps R (transmit env command payload >> n)
  and_then command payload n h =
      then-Keeps R trans (transmit env command payload) n (transmit-Keeps command payload) h

  send_core_state-Keeps : Keeps R (send_core_state env)
  unfolding send_core_state
  send_core_state-Keeps = and_then _ _ _ (and_then _ _ _ (transmit-Keeps _ _))

  send_items-Keeps : (tasks : List Task) → Keeps R (send_items env tasks)
  unfolding send_items
  send_items-Keeps [] = refl_of
  send_items-Keeps (t ∷ tasks) = and_then _ _ _ (send_items-Keeps tasks)

  send_snapshot-Keeps :
      (tasks : List Task) (shown : Option Notice) → Keeps R (send_snapshot env tasks shown)
  unfolding send_snapshot
  send_snapshot-Keeps tasks shown = and_then _ _ _ (
      then-Keeps R trans (send_core_state env) _ send_core_state-Keeps (
        and_then _ _ _ (
          and_then _ _ _ (
            and_then _ _ _ (
              then-Keeps R trans (send_items env tasks) _ (send_items-Keeps tasks)
                (and_then _ _ _ (transmit-Keeps _ _)))))))

  pub full_sync-Keeps :
      (now_ms : ℕ) (o : Orchestrator)
      → R o (record o { dashboard = current_dashboard o })
      → R o (full_sync env now_ms o)
  unfolding full_sync
  full_sync-Keeps now_ms o dashboards =
      let sent =
        (send_snapshot env (recent_tasks o) (latest_notice now_ms o)
          (record o { dashboard = current_dashboard o })).1 in
      trans o (record o { dashboard = current_dashboard o }) _ dashboards
        (trans _ sent _ (send_snapshot-Keeps _ _ _) (states sent.state sent))

  pub publish_state-Keeps : (o : Orchestrator) → R o (publish_state env o)
  unfolding publish_state
  publish_state-Keeps o =
      let sent = (send_core_state env o).1 in
      trans o sent _ (send_core_state-Keeps o) (states sent.state sent)
