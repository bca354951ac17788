-- ===== src/Services/Orchestrator/Events.antt =====
-- Events of the gateway (`_on_event`).
pub mod Ownership
use nightshift_opi.Prelude.{ℕ, Bool, true, false, not, Option, none, some, ◌==◌, if◌then◌else◌}
use nightshift_opi.Domain.Events.{
  DomainEvent, HeartbeatReceived, heartbeat_received, panel_connectivity_changed,
}
use nightshift_opi.Domain.Models.{SystemState, evolve, no_changes, attention_eq}
use nightshift_opi.Services.Orchestrator.{Orchestrator}

-- The task that `asyncio.create_task` is given.
pub data Background : Type 0 where
  full_sync publish_state : Background

-- `event.received_at_ms or int(time.monotonic() * 1000)`
abbrev pub stamp : ℕ → ℕ → ℕ
stamp received_at_ms now_ms = if received_at_ms == 0 then now_ms else received_at_ms

unfoldable pub on_heartbeat : HeartbeatReceived → ℕ → SystemState → SystemState
on_heartbeat e now_ms s = evolve s (record no_changes {
  panel_online = some true;
  attention = some (record s.attention { panel_offline = false });
  panel_telemetry = some (record {
    t5_uptime_ms = e.t5_uptime_ms;
    error_flags = e.error_flags;
    applied_revision = e.applied_revision;
    last_heartbeat_at_ms = e.received_at_ms;
  });
  updated_at_ms = some (stamp e.received_at_ms now_ms);
  bump_revision = false;
})

unfoldable pub on_connectivity : Bool → ℕ → SystemState → SystemState
on_connectivity online now_ms s =
    let attention = record s.attention { panel_offline = not online } in
    evolve s (record no_changes {
      panel_online = some online;
      attention = some attention;
      updated_at_ms = some now_ms;
      bump_revision = not (attention_eq attention s.attention);
    })

-- The state changes at once; what is sent is left to the task that comes back.
unfoldable pub on_event : DomainEvent → ℕ → Orchestrator → Option Background × Orchestrator
on_event event now_ms o = elim event [
  | heartbeat_received e ↦ (
    if o.state.panel_online then none else some full_sync,
    record o { state = on_heartbeat e now_ms o.state },
  )
  | panel_connectivity_changed online ↦
      let s = on_connectivity online now_ms o.state in
      (
        if attention_eq s.attention o.state.attention then none else some publish_state,
        record o { state = s },
      )
  | _ ↦ (none, o)
]
