-- ===== src/Domain/Events.antt =====
-- The events of the domain (nightshift/domain/events.py).
use Prim.Native.String.{String}
use nightshift_opi.Prelude.{ℕ, Bool, List}
use nightshift_opi.Prelude.Int.{ℤ}
use nightshift_opi.Domain.Pressure.{PressureState}
use nightshift_opi.Domain.Models.{SystemMode, WorkState}

pub record UiAction : Type 0 where
  pub action : ℕ
  pub object_type : ℕ
  pub object_id : ℕ
  pub value : ℤ
  pub text : List ℕ

pub record HeartbeatReceived : Type 0 where
  pub status : ℕ
  pub t5_uptime_ms : ℕ
  pub applied_revision : ℕ
  pub error_flags : ℕ
  pub received_at_ms : ℕ

-- The union `DomainEvent`. The arguments are the fields of the class, in its order.
pub data DomainEvent : Type 0 where
  pressure_changed : PressureState → ℕ → ℕ → DomainEvent
  mode_changed : SystemMode → SystemMode → String → ℕ → ℕ → DomainEvent
  work_state_changed : WorkState → WorkState → DomainEvent
  attention_changed : ℕ → ℕ → DomainEvent
  panel_connectivity_changed : Bool → DomainEvent
  ui_action : UiAction → DomainEvent
  heartbeat_received : HeartbeatReceived → DomainEvent
  heartbeat_failed : ℕ → ℕ → ℕ → DomainEvent
  page_event : ℕ → ℕ → ℕ → ℕ → DomainEvent
