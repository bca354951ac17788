-- ===== src/Mqtt/Documents.antt =====
-- The documents that are published (nightshift/integrations/mqtt/schemas.py). A document is the
-- object that `json.dumps` is given; `json.dumps` itself is not code of the repository.
pub mod Reading
use Prim.Native.String.{String}
use nightshift_opi.Prelude.{ℕ, Bool, true, false, ◌&&◌, Option, none, some, if◌then◌else◌}
use nightshift_opi.Prelude.Int.{pos}
use nightshift_opi.Domain.Models.{SystemMode, WorkState, AttentionFlag, SystemState, DashboardState}
use nightshift_opi.Domain.Pressure.{PressureSample, PressureState, is_valid, cushion, footrest}
use nightshift_opi.Services.Orchestrator.{new_dashboard}
use nightshift_opi.Mqtt.Json.{
  Json, Items, Fields, json_bool, json_int, json_str, json_list, json_dict, empty_list, item,
  empty_dict, field,
}

abbrev pub json_nat : ℕ → Json
json_nat n = json_int (pos n)

abbrev pub json_flag : Bool → Json
json_flag b = json_bool b

-- The values of the `StrEnum` classes.
unfoldable pub mode_name : SystemMode → String
mode_name SystemMode.idle = "idle"
mode_name SystemMode.day_work = "day_work"
mode_name SystemMode.night_exec = "night_exec"

unfoldable pub work_state_name : WorkState → String
work_state_name WorkState.stopped = "stopped"
work_state_name WorkState.starting = "starting"
work_state_name WorkState.running = "running"
work_state_name WorkState.paused = "paused"
work_state_name WorkState.completed = "completed"
work_state_name WorkState.failed = "failed"

-- `if value is not None: msg[key] = value`
unfoldable pub field_if : String → Option Json → Fields → Fields
field_if key none rest = rest
field_if key (some value) rest = field key value rest

unfoldable pub build_availability :
    Bool → String → Option String → Option String → Option ℕ → Fields
build_availability online node_id boot_id version started_at_ms =
    let text : Option String → Option Json =
      λ o. elim o [ none ↦ none | some s ↦ some (json_str s) ] in
    let started : Option Json = elim started_at_ms [ none ↦ none | some n ↦ some (json_nat n) ] in
    field "schema" (json_str "nightshift.availability.v1") (
      field "online" (json_flag online) (
        field "node_id" (json_str node_id) (
          if online
          then field_if "boot_id" (text boot_id)
              (field_if "version" (text version) (field_if "started_at_ms" started empty_dict))
          else empty_dict)))

unfoldable pub build_lwt : String → Fields
build_lwt node_id = build_availability false node_id none none none

-- `if flag in state.attention: attention.append(flag.name.lower())`
unfoldable pub item_if : Bool → String → Items → Items
item_if present name rest = if present then item (json_str name) rest else rest

unfoldable pub attention_items : AttentionFlag → Items
attention_items a = item_if a.need_confirm "need_confirm" (
    item_if a.sensor_error "sensor_error" (
      item_if a.panel_offline "panel_offline" (
        item_if a.backend_error "backend_error" (
          item_if a.storage_warning "storage_warning" (
            item_if a.agent_failed "agent_failed"
              (item_if a.network_offline "network_offline" empty_list))))))

-- `valid`; with no times, the age of the sample is not looked at.
unfoldable pub shown_valid : PressureState → Option (ℕ × ℕ) → Bool
shown_valid p (some (now_ms, stale_ms)) = is_valid p now_ms stale_ms
shown_valid p none = elim p.last_sample [ none ↦ false | some sample ↦ p.online ]

-- The keys that a sample adds to the block.
unfoldable pub sample_fields : Option PressureSample → Fields
sample_fields none = empty_dict
sample_fields (some sample) =
    field "device_id" (json_str sample.device_id)
      (field "boot_id" (json_str sample.boot_id) (field "seq" (json_nat sample.seq) empty_dict))

unfoldable pub pressure_block : PressureState → Option (ℕ × ℕ) → Fields
pressure_block p times = field "online" (json_flag p.online) (
    field "valid" (json_flag (shown_valid p times)) (
      field "cushion" (json_flag (cushion p)) (
        field "footrest" (json_flag (footrest p))
          (field "updated_at_ms" (json_nat p.updated_at_ms) (sample_fields p.last_sample)))))

unfoldable pub task_counts : DashboardState → Fields
task_counts dash = field "urgent_auto" (json_nat dash.urgent_auto) (
    field "normal_auto" (json_nat dash.normal_auto) (
      field "urgent_confirm" (json_nat dash.urgent_confirm) (
        field "normal_confirm" (json_nat dash.normal_confirm) (
          field "completed_today" (json_nat dash.completed_today)
            (field "failed_today" (json_nat dash.failed_today) empty_dict)))))

-- `dashboard or DashboardState(...)`
unfoldable pub dashboard_or_zero : Option DashboardState → ℕ → DashboardState
dashboard_or_zero none revision = new_dashboard revision
dashboard_or_zero (some dash) revision = dash

-- The last argument is `now_ms` with `stale_ms`, where both are given.
unfoldable pub build_state : SystemState → String → Option DashboardState → Option (ℕ × ℕ) → Fields
build_state s node_id dashboard times = field "schema" (json_str "nightshift.system-state.v2") (
    field "revision" (json_nat s.revision) (
      field "node_id" (json_str node_id) (
        field "mode" (json_str (mode_name s.mode)) (
          field "attention" (json_list (attention_items s.attention)) (
            field "work_state" (json_str (work_state_name s.work_state)) (
              field "pressure" (json_dict (pressure_block s.pressure times)) (
                field "panel" (json_dict (field "online" (json_flag s.panel_online) empty_dict)) (
                  field "tasks" (json_dict (task_counts (dashboard_or_zero dashboard s.revision))) (
                    field "confirmation_count" (json_nat s.confirmation_count) (
                      field "tokens"
                        (json_dict (
                          field "input" (json_nat s.token_input)
                            (field "output" (json_nat s.token_output) empty_dict)))
                        (field "updated_at_ms" (json_nat s.updated_at_ms) empty_dict)))))))))))

unfoldable pub build_event : String → String → ℕ → ℕ → Fields → Fields
build_event event_type event_id revision occurred_at_ms content =
    field "schema" (json_str "nightshift.event.v1") (
      field "event_id" (json_str event_id) (
        field "type" (json_str event_type) (
          field "revision" (json_nat revision) (
            field "occurred_at_ms" (json_nat occurred_at_ms)
              (field "data" (json_dict content) empty_dict)))))
