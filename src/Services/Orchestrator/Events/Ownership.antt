-- ===== src/Services/Orchestrator/Events/Ownership.antt =====
-- What an event of the gateway may change.
use nightshift_opi.Prelude.{ℕ, suc, ◌≡◌, inl, inr, Bool-cases, Option, some, arith}
use nightshift_opi.Domain.Events.{DomainEvent, heartbeat_received, panel_connectivity_changed}
use nightshift_opi.Domain.Models.{evolve}
use nightshift_opi.Services.Orchestrator.{Orchestrator}
use nightshift_opi.Services.Orchestrator.Events.{
  Background, on_event, on_heartbeat, on_connectivity,
}

-- The fields that are not the gateway's are kept.
pub record Owned (o p : Orchestrator) : Type 0 where
  pub mode : p.state.mode ≡ o.state.mode
  pub work_state : p.state.work_state ≡ o.state.work_state
  pub pressure : p.state.pressure ≡ o.state.pressure
  pub confirmation_count : p.state.confirmation_count ≡ o.state.confirmation_count
  pub need_confirm : p.state.attention.need_confirm ≡ o.state.attention.need_confirm
  pub sensor_error : p.state.attention.sensor_error ≡ o.state.attention.sensor_error
  pub db : p.db ≡ o.db

-- The new revision is published by a task, and a task that publishes stands for a new revision.
abbrev pub Announced : Option Background → Orchestrator → Orchestrator → Type 0
Announced (some Background.publish_state) o p = p.state.revision ≡ suc o.state.revision
Announced _ o p = p.state.revision ≡ o.state.revision

-- An event of the gateway changes only what the gateway knows of, the panel and its flag; the
-- revision goes up by one exactly if the task that publishes the state is started.
pub on_event-Owned :
    (event : DomainEvent) (now_ms : ℕ) (o : Orchestrator)
    → let (task, p) = on_event event now_ms o in Owned o p × Announced task o p
unfolding on_event on_heartbeat on_connectivity evolve
on_event-Owned (heartbeat_received e) now_ms o = elim (Bool-cases o.state.panel_online) [
  | inl online ↦ (ground arith, ground arith)
  | inr offline ↦ (ground arith, ground arith)
]
on_event-Owned (panel_connectivity_changed online) now_ms o = (ground arith, ground arith)
on_event-Owned _ now_ms o = (ground arith, ground arith)
