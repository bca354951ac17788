-- ===== src/Services/Orchestrator.antt =====
-- The orchestrator's state and what it is connected to (nightshift/services/orchestrator.py).
pub mod Payload
pub mod Sync
pub mod Apply
pub mod Events
pub mod Actions
pub mod Invariant
pub mod Listeners
use nightshift_opi.Prelude.{ℕ, Option, none, some, if◌then◌else◌, Bool, false}
use nightshift_opi.Prelude.Bytes.{Bytes}
use nightshift_opi.Prelude.Exec.{Exec}
use nightshift_opi.Domain.Events.{DomainEvent}
use nightshift_opi.Domain.Models.{
  SystemMode, SystemState, DashboardState, PanelTelemetry, WorkState, sensor_error, stopped,
}
use nightshift_opi.Domain.Pressure.{empty, stale_ms_default, night_dwell_ms}
use nightshift_opi.Domain.StateMachine.{StateMachine}
use nightshift_opi.Services.Confirmations.{Database}
use nightshift_opi.Services.Executor.{ExecutorService, new_executor}

-- `db` is `none` where the three services are `None`.
pub record Orchestrator : Type 0 where
  pub state : SystemState
  pub dashboard : DashboardState
  pub state_machine : StateMachine
  pub executor : ExecutorService
  pub db : Option Database

-- What runs while the orchestrator waits: `send` is `self._uart.send`, which raises when no answer
-- comes, and the other two are the listeners, whose exceptions are caught. Each may change the
-- orchestrator, since other tasks run in the meantime.
pub record Environment : Type 0 where
  pub send : ℕ → Bytes → Exec Orchestrator Unit
  pub state_listeners : SystemState → Orchestrator → Orchestrator
  pub event_listeners : DomainEvent → Orchestrator → Orchestrator

abbrev pub no_telemetry : PanelTelemetry
no_telemetry = record {
  t5_uptime_ms = 0;
  error_flags = 0;
  applied_revision = 0;
  last_heartbeat_at_ms = 0;
}

abbrev pub new_dashboard : ℕ → DashboardState
new_dashboard revision = record {
  revision = revision;
  urgent_auto = 0;
  normal_auto = 0;
  urgent_confirm = 0;
  normal_confirm = 0;
  completed_today = 0;
  failed_today = 0;
}

-- A keyword argument that is `None` leaves the default of the state machine.
abbrev pub or_default : Option ℕ → ℕ → ℕ
or_default none default = default
or_default (some n) default = n

-- `__init__`, with the time that it reads.
unfoldable pub init : Option Database → Option ℕ → Option ℕ → ℕ → Orchestrator
init db dwell_ms stale_ms now_ms = record {
  state = record {
    revision = 0;
    mode = SystemMode.idle;
    attention = sensor_error;
    work_state = stopped;
    pressure = empty;
    panel_online = false;
    confirmation_count = 0;
    token_input = 0;
    token_output = 0;
    updated_at_ms = now_ms;
    panel_telemetry = no_telemetry;
  };
  dashboard = new_dashboard 0;
  state_machine = record {
    dwell_ms = or_default dwell_ms night_dwell_ms;
    stale_ms = or_default stale_ms stale_ms_default;
    all_released_since_ms = none;
  };
  executor = new_executor;
  db = db;
}
