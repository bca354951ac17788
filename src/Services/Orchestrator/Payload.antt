-- ===== src/Services/Orchestrator/Payload.antt =====
-- The payloads that the orchestrator sends, each from the state at the time when it is encoded
-- (`_send_core_state` and `_full_sync_locked`).
use nightshift_opi.Prelude.{ℕ, ◌-◌, ◌%◌, ◌^◌, Option, none, some, List, [], length, Result}
use nightshift_opi.Prelude.Bytes.{Bytes}
use nightshift_opi.Prelude.Int.{ℤ, pos, negsuc}
use nightshift_opi.Domain.Commands
use nightshift_opi.Uart.Encode
use nightshift_opi.Services.Tasks.{Task, TaskState, pending, active, completed, failed}
use nightshift_opi.Services.Notices.{Notice}
use nightshift_opi.Services.Orchestrator.{Orchestrator}

-- `_TASK_STATE_TO_BYTE[task.state]`
unfoldable pub task_state_to_byte : TaskState → ℕ
task_state_to_byte pending = Commands.work_stopped
task_state_to_byte active = Commands.work_running
task_state_to_byte completed = Commands.work_completed
task_state_to_byte failed = Commands.work_failed

-- The bits that `& 0xFF` keeps of an integer with a sign.
abbrev pub low_byte : ℤ → ℕ
low_byte (pos n) = n % 2 ^ 8
low_byte (negsuc n) = 255 - n % 2 ^ 8

unfoldable pub mode : Orchestrator → Result Bytes
mode o = Encode.encode_mode_set o.state.revision o.state.mode o.state.updated_at_ms 0

unfoldable pub attention : Orchestrator → Result Bytes
attention o =
    Encode.encode_attention_set o.state.revision o.state.attention o.state.confirmation_count []

unfoldable pub work_state : Orchestrator → Result Bytes
work_state o = Encode.encode_work_state_set o.state.revision o.state.work_state 0 0 0 0 0 []

unfoldable pub sync_begin : Orchestrator → Result Bytes
sync_begin o = Encode.encode_state_sync_begin o.state.revision 0

unfoldable pub dashboard : Orchestrator → Result Bytes
dashboard o = Encode.encode_dashboard_set o.state.revision o.dashboard

unfoldable pub notice : Option Notice → Orchestrator → Result Bytes
notice shown o = elim shown [
  | none ↦ Encode.encode_notice_show o.state.revision 0 0 0 0 [] []
  | some n ↦
      let expires_at_ms : ℕ = elim n.expires_at_ms [ none ↦ 0 | some t ↦ t ] in
      Encode.encode_notice_show o.state.revision n.id (n.flags % 4) n.flags expires_at_ms n.title
        n.body
]

unfoldable pub list_begin : List Task → Orchestrator → Result Bytes
list_begin tasks o = Encode.encode_task_list_begin o.state.revision 0 (length tasks)

unfoldable pub task : Task → Orchestrator → Result Bytes
task t o =
    Encode.encode_task_item o.state.revision t.id (low_byte t.quadrant) (task_state_to_byte t.state)
      t.flags t.title t.source

unfoldable pub list_end : Orchestrator → Result Bytes
list_end o = Encode.encode_task_list_end o.state.revision 0

unfoldable pub sync_end : Orchestrator → Result Bytes
sync_end o = Encode.encode_state_sync_end o.state.revision 0
