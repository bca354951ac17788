-- ===== src/Domain/Models.antt =====
-- The core models (nightshift/domain/models.py, and the byte tables of
-- nightshift/domain/commands.py).
use nightshift_opi.Prelude.{
  ◌≡◌, refl, ◌==◌, bool_eq, ℕ, ◌+◌, Bool, true, false, ◌&&◌, Option, none, some, if◌then◌else◌,
}
use nightshift_opi.Domain.Pressure.{PressureState}

pub data SystemMode : Type 0 where
  idle day_work night_exec : SystemMode

pub data WorkState : Type 0 where
  stopped starting running paused completed failed : WorkState

-- An `IntFlag` as the set of its members.
pub record AttentionFlag : Type 0 where
  pub need_confirm : Bool
  pub sensor_error : Bool
  pub panel_offline : Bool
  pub backend_error : Bool
  pub storage_warning : Bool
  pub agent_failed : Bool
  pub network_offline : Bool

abbrev pub no_attention : AttentionFlag
no_attention = record {
  need_confirm = false;
  sensor_error = false;
  panel_offline = false;
  backend_error = false;
  storage_warning = false;
  agent_failed = false;
  network_offline = false;
}

abbrev pub sensor_error : AttentionFlag
sensor_error = record no_attention { sensor_error = true }

abbrev bit : Bool → ℕ → ℕ
bit b n = if b then n else 0

-- `int(attention)`
unfoldable pub attention_bits : AttentionFlag → ℕ
attention_bits a =
    bit a.need_confirm 1
    + bit a.sensor_error 2
    + bit a.panel_offline 4
    + bit a.backend_error 8
    + bit a.storage_warning 16
    + bit a.agent_failed 32
    + bit a.network_offline 64

unfoldable pub attention_eq : AttentionFlag → AttentionFlag → Bool
attention_eq a b =
    bool_eq a.need_confirm b.need_confirm
    && bool_eq a.sensor_error b.sensor_error
    && bool_eq a.panel_offline b.panel_offline
    && bool_eq a.backend_error b.backend_error
    && bool_eq a.storage_warning b.storage_warning
    && bool_eq a.agent_failed b.agent_failed
    && bool_eq a.network_offline b.network_offline

unfoldable pub mode_eq : SystemMode → SystemMode → Bool
mode_eq SystemMode.idle SystemMode.idle = true
mode_eq day_work day_work = true
mode_eq night_exec night_exec = true
mode_eq _ _ = false

pub record PanelTelemetry : Type 0 where
  pub t5_uptime_ms : ℕ
  pub error_flags : ℕ
  pub applied_revision : ℕ
  pub last_heartbeat_at_ms : ℕ

pub record SystemState : Type 0 where
  pub revision : ℕ
  pub mode : SystemMode
  pub attention : AttentionFlag
  pub work_state : WorkState
  pub pressure : PressureState
  pub panel_online : Bool
  pub confirmation_count : ℕ
  pub token_input : ℕ
  pub token_output : ℕ
  pub updated_at_ms : ℕ
  pub panel_telemetry : PanelTelemetry

-- The keyword arguments of `evolve`; `none` is an argument left out.
pub record Changes : Type 0 where
  pub mode : Option SystemMode
  pub attention : Option AttentionFlag
  pub work_state : Option WorkState
  pub pressure : Option PressureState
  pub panel_online : Option Bool
  pub confirmation_count : Option ℕ
  pub token_input : Option ℕ
  pub token_output : Option ℕ
  pub updated_at_ms : Option ℕ
  pub panel_telemetry : Option PanelTelemetry
  pub bump_revision : Bool

abbrev pub no_changes : Changes
no_changes = record {
  mode = none;
  attention = none;
  work_state = none;
  pressure = none;
  panel_online = none;
  confirmation_count = none;
  token_input = none;
  token_output = none;
  updated_at_ms = none;
  panel_telemetry = none;
  bump_revision = true;
}

abbrev if_given {ℓ} : {A : Type ℓ} → Option A → A → A
if_given none old = old
if_given (some new) old = new

unfoldable pub evolve : SystemState → Changes → SystemState
evolve s c = record {
  revision = if c.bump_revision then s.revision + 1 else s.revision;
  mode = if_given c.mode s.mode;
  attention = if_given c.attention s.attention;
  work_state = if_given c.work_state s.work_state;
  pressure = if_given c.pressure s.pressure;
  panel_online = if_given c.panel_online s.panel_online;
  confirmation_count = if_given c.confirmation_count s.confirmation_count;
  token_input = if_given c.token_input s.token_input;
  token_output = if_given c.token_output s.token_output;
  updated_at_ms = if_given c.updated_at_ms s.updated_at_ms;
  panel_telemetry = if_given c.panel_telemetry s.panel_telemetry;
}

pub record DashboardState : Type 0 where
  pub revision : ℕ
  pub urgent_auto : ℕ
  pub normal_auto : ℕ
  pub urgent_confirm : ℕ
  pub normal_confirm : ℕ
  pub completed_today : ℕ
  pub failed_today : ℕ

-- `cmd.MODE_TO_BYTE[mode.value]`
unfoldable pub mode_to_byte : SystemMode → ℕ
mode_to_byte SystemMode.idle = 0
mode_to_byte day_work = 1
mode_to_byte night_exec = 2

-- `cmd.WORK_STATE_TO_BYTE[work_state.value]`
unfoldable pub work_state_to_byte : WorkState → ℕ
work_state_to_byte stopped = 0
work_state_to_byte starting = 1
work_state_to_byte running = 2
work_state_to_byte paused = 3
work_state_to_byte completed = 4
work_state_to_byte failed = 5

-- `BYTE_TO_MODE[byte]`, as the mode with that value; `none` is a KeyError
unfoldable pub byte_to_mode : ℕ → Option SystemMode
byte_to_mode byte =
    if byte == 0
    then some SystemMode.idle
    else if byte == 1
    then some day_work
    else if byte == 2
    then some night_exec
    else none

-- `BYTE_TO_WORK_STATE[byte]`
unfoldable pub byte_to_work_state : ℕ → Option WorkState
byte_to_work_state byte =
    if byte == 0
    then some stopped
    else if byte == 1
    then some starting
    else if byte == 2
    then some running
    else if byte == 3
    then some paused
    else if byte == 4
    then some completed
    else if byte == 5
    then some failed
    else none

byte_to_mode-mode_to_byte : (mode : SystemMode) → byte_to_mode (mode_to_byte mode) ≡ some mode
unfolding byte_to_mode mode_to_byte
byte_to_mode-mode_to_byte SystemMode.idle = refl
byte_to_mode-mode_to_byte day_work = refl
byte_to_mode-mode_to_byte night_exec = refl

byte_to_work_state-work_state_to_byte :
    (s : WorkState) → byte_to_work_state (work_state_to_byte s) ≡ some s
unfolding byte_to_work_state work_state_to_byte
byte_to_work_state-work_state_to_byte stopped = refl
byte_to_work_state-work_state_to_byte starting = refl
byte_to_work_state-work_state_to_byte running = refl
byte_to_work_state-work_state_to_byte paused = refl
byte_to_work_state-work_state_to_byte completed = refl
byte_to_work_state-work_state_to_byte failed = refl
