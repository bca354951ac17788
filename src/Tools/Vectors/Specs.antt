-- ===== src/Tools/Vectors/Specs.antt =====
-- The vectors of the file (`SPECS` of tools/regenerate_golden_vectors.py).
use nightshift_opi.Prelude.{List, [], ◌∷◌}
use nightshift_opi.Tools.Vectors.{VectorSpec}
use nightshift_opi.Tools.Vectors.StateSpecs.{
  hello_request, heartbeat_request, heartbeat_response, state_sync_begin, state_sync_end,
  mode_set_night_exec, attention_set_need_confirm, work_state_set_running, dashboard_set,
  notice_show,
}
use nightshift_opi.Tools.Vectors.PanelSpecs.{
  task_list_begin, task_item, task_list_end, ui_action_confirm, ui_action_request_resync,
  page_event, get_info_request, get_info_response, time_sync, led_override, backlight_set,
}

unfoldable pub specs : List VectorSpec
specs =
    hello_request ∷ heartbeat_request ∷ heartbeat_response ∷ state_sync_begin ∷ state_sync_end
    ∷ mode_set_night_exec ∷ attention_set_need_confirm ∷ work_state_set_running ∷ dashboard_set
    ∷ notice_show ∷ task_list_begin ∷ task_item ∷ task_list_end ∷ ui_action_confirm
    ∷ ui_action_request_resync ∷ page_event ∷ get_info_request ∷ get_info_response ∷ time_sync
    ∷ led_override ∷ backlight_set ∷ []
