-- ===== src/Mqtt/Documents/Reading.antt =====
-- What a reader of the published state gets back.
use Prim.Native.String.{String}
use text.Mathlib.Text.{◌==◌ as str_eq}
use nightshift_opi.Prelude.{
  ℕ, ◌≡◌, refl, ◌∙◌, Bool, true, false, ◌||◌, ◌&&◌, Option, none, some, if◌then◌else◌, arith,
}
use nightshift_opi.Prelude.Int.{pos}
use nightshift_opi.Domain.Models.{SystemMode, AttentionFlag, SystemState, DashboardState}
use nightshift_opi.Mqtt.Json.{Json, Items, json_int, json_str, json_list, empty_list, item, get}
use nightshift_opi.Mqtt.Documents.{mode_name, item_if, attention_items, build_state}

-- `name in items`
unfoldable pub mentions : String → Items → Bool
mentions name empty_list = false
mentions name (item (json_str s) rest) = str_eq s name || mentions name rest
mentions name (item _ rest) = mentions name rest

unfoldable pub read_attention : Option Json → Option AttentionFlag
read_attention (some (json_list items)) = some (record {
  need_confirm = mentions "need_confirm" items;
  sensor_error = mentions "sensor_error" items;
  panel_offline = mentions "panel_offline" items;
  backend_error = mentions "backend_error" items;
  storage_warning = mentions "storage_warning" items;
  agent_failed = mentions "agent_failed" items;
  network_offline = mentions "network_offline" items;
})
read_attention _ = none

unfoldable pub read_mode : Option Json → Option SystemMode
read_mode (some (json_str s)) =
    if str_eq s "idle"
    then some SystemMode.idle
    else if str_eq s "day_work"
    then some SystemMode.day_work
    else if str_eq s "night_exec"
    then some SystemMode.night_exec
    else none
read_mode _ = none

unfoldable pub read_nat : Option Json → Option ℕ
read_nat (some (json_int (pos n))) = some n
read_nat _ = none

read_mode-mode_name : (m : SystemMode) → read_mode (some (json_str (mode_name m))) ≡ some m
unfolding read_mode mode_name
read_mode-mode_name SystemMode.idle = refl
read_mode-mode_name SystemMode.day_work = refl
read_mode-mode_name SystemMode.night_exec = refl

mentions-item_if :
    (name other : String) (present : Bool) (rest : Items)
    → mentions name (item_if present other rest)
      ≡ (present && str_eq other name) || mentions name rest
unfolding mentions item_if
mentions-item_if name other true rest = refl
mentions-item_if name other false rest = refl

-- An item of another name is passed over.
passes :
    (name other : String) (b : Bool) (rest : Items)
    → str_eq other name ≡ false
    → mentions name (item_if b other rest) ≡ mentions name rest
unfolding mentions item_if
passes name other true rest h = ground arith
passes name other false rest h = refl

finds :
    (name : String) (b : Bool) (rest : Items)
    → str_eq name name ≡ true
    → mentions name rest ≡ false
    → mentions name (item_if b name rest) ≡ b
unfolding mentions item_if
finds name true rest h k = ground arith
finds name false rest h k = k

reads_need_confirm :
    (a : AttentionFlag) → mentions "need_confirm" (attention_items a) ≡ a.need_confirm
unfolding attention_items mentions
reads_need_confirm a = finds "need_confirm" a.need_confirm _ refl (
    passes "need_confirm" "sensor_error" a.sensor_error _ refl
    ∙ passes "need_confirm" "panel_offline" a.panel_offline _ refl
    ∙ passes "need_confirm" "backend_error" a.backend_error _ refl
    ∙ passes "need_confirm" "storage_warning" a.storage_warning _ refl
    ∙ passes "need_confirm" "agent_failed" a.agent_failed _ refl
    ∙ passes "need_confirm" "network_offline" a.network_offline _ refl)

reads_sensor_error :
    (a : AttentionFlag) → mentions "sensor_error" (attention_items a) ≡ a.sensor_error
unfolding attention_items mentions
reads_sensor_error a =
    passes "sensor_error" "need_confirm" a.need_confirm _ refl
    ∙ finds "sensor_error" a.sensor_error _ refl (
        passes "sensor_error" "panel_offline" a.panel_offline _ refl
        ∙ passes "sensor_error" "backend_error" a.backend_error _ refl
        ∙ passes "sensor_error" "storage_warning" a.storage_warning _ refl
        ∙ passes "sensor_error" "agent_failed" a.agent_failed _ refl
        ∙ passes "sensor_error" "network_offline" a.network_offline _ refl)

reads_panel_offline :
    (a : AttentionFlag) → mentions "panel_offline" (attention_items a) ≡ a.panel_offline
unfolding attention_items mentions
reads_panel_offline a =
    passes "panel_offline" "need_confirm" a.need_confirm _ refl
    ∙ passes "panel_offline" "sensor_error" a.sensor_error _ refl
    ∙ finds "panel_offline" a.panel_offline _ refl (
        passes "panel_offline" "backend_error" a.backend_error _ refl
        ∙ passes "panel_offline" "storage_warning" a.storage_warning _ refl
        ∙ passes "panel_offline" "agent_failed" a.agent_failed _ refl
        ∙ passes "panel_offline" "network_offline" a.network_offline _ refl)

reads_backend_error :
    (a : AttentionFlag) → mentions "backend_error" (attention_items a) ≡ a.backend_error
unfolding attention_items mentions
reads_backend_error a =
    passes "backend_error" "need_confirm" a.need_confirm _ refl
    ∙ passes "backend_error" "sensor_error" a.sensor_error _ refl
    ∙ passes "backend_error" "panel_offline" a.panel_offline _ refl
    ∙ finds "backend_error" a.backend_error _ refl (
        passes "backend_error" "storage_warning" a.storage_warning _ refl
        ∙ passes "backend_error" "agent_failed" a.agent_failed _ refl
        ∙ passes "backend_error" "network_offline" a.network_offline _ refl)

reads_storage_warning :
    (a : AttentionFlag) → mentions "storage_warning" (attention_items a) ≡ a.storage_warning
unfolding attention_items mentions
reads_storage_warning a =
    passes "storage_warning" "need_confirm" a.need_confirm _ refl
    ∙ passes "storage_warning" "sensor_error" a.sensor_error _ refl
    ∙ passes "storage_warning" "panel_offline" a.panel_offline _ refl
    ∙ passes "storage_warning" "backend_error" a.backend_error _ refl
    ∙ finds "storage_warning" a.storage_warning _ refl (
        passes "storage_warning" "agent_failed" a.agent_failed _ refl
        ∙ passes "storage_warning" "network_offline" a.network_offline _ refl)

reads_agent_failed :
    (a : AttentionFlag) → mentions "agent_failed" (attention_items a) ≡ a.agent_failed
unfolding attention_items mentions
reads_agent_failed a =
    passes "agent_failed" "need_confirm" a.need_confirm _ refl
    ∙ passes "agent_failed" "sensor_error" a.sensor_error _ refl
    ∙ passes "agent_failed" "panel_offline" a.panel_offline _ refl
    ∙ passes "agent_failed" "backend_error" a.backend_error _ refl
    ∙ passes "agent_failed" "storage_warning" a.storage_warning _ refl
    ∙ finds "agent_failed" a.agent_failed _ refl
        (passes "agent_failed" "network_offline" a.network_offline _ refl)

reads_network_offline :
    (a : AttentionFlag) → mentions "network_offline" (attention_items a) ≡ a.network_offline
unfolding attention_items mentions
reads_network_offline a =
    passes "network_offline" "need_confirm" a.need_confirm _ refl
    ∙ passes "network_offline" "sensor_error" a.sensor_error _ refl
    ∙ passes "network_offline" "panel_offline" a.panel_offline _ refl
    ∙ passes "network_offline" "backend_error" a.backend_error _ refl
    ∙ passes "network_offline" "storage_warning" a.storage_warning _ refl
    ∙ passes "network_offline" "agent_failed" a.agent_failed _ refl
    ∙ finds "network_offline" a.network_offline _ refl (refl)

read_attention-attention_items :
    (a : AttentionFlag) → read_attention (some (json_list (attention_items a))) ≡ some a
unfolding read_attention
read_attention-attention_items a = grind (
  arith,
  reads_need_confirm a,
  reads_sensor_error a,
  reads_panel_offline a,
  reads_backend_error a,
  reads_storage_warning a,
  reads_agent_failed a,
  reads_network_offline a,
)

-- The published state can be read back: the revision, the mode and the attention flags of the
-- document are those of the state, whatever the other arguments are.
pub read-build_state :
    (s : SystemState) (node_id : String) (dashboard : Option DashboardState)
    (times : Option (ℕ × ℕ))
    → let doc = build_state s node_id dashboard times in
      (read_nat (get "revision" doc) ≡ some s.revision)
      × (read_mode (get "mode" doc) ≡ some s.mode)
      × (read_attention (get "attention" doc) ≡ some s.attention)
unfolding build_state get read_nat
read-build_state s node_id dashboard times =
    (refl, read_mode-mode_name s.mode, read_attention-attention_items s.attention)
