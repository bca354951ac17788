-- ===== src/Mqtt/Schemas/Listed.antt =====
-- What the parser of commands lets through, said of the characters and the names alone
-- (nightshift/integrations/mqtt/schemas.py).
use Prim.Native.String.{String, ◌∷◌ as ◌∶◌}
use text.Mathlib.Text.{◌==◌ as str_eq}
use text.Mathlib.TextEquality.{eq_iff}
use mathlib.Core.Path.{subst}
use nightshift_opi.Prelude.{
  ◌<◌, ◌≡◌, ◌≢◌, ◌⊎◌, inl, inr, sym, Bool-cases, true, some, List, [], ◌∷◌, ok, arith, Result,
}
use nightshift_opi.Prelude.Bytes.{Bytes}
use nightshift_opi.Mqtt.Json.{Json, Fields, empty_dict, field, get}
use nightshift_opi.Mqtt.Schemas.{
  CommandEnvelope, Payload, Command, command_whitelist, expected_keys, is_among, has_only,
  is_not_empty, parse_command,
}
use nightshift_opi.Mqtt.Schemas.Shapes.{
  codes, IsUuid, IsClientId, is_uuid-IsUuid, is_client_id-IsClientId,
}
use nightshift_opi.Mqtt.Schemas.Parsed.{IsWellFormed, parse_command-IsWellFormed}

-- The commands
pub data IsCommand (command : String) : Type 0 where
  task_confirm : command ≡ "task.confirm" → IsCommand command
  task_reject : command ≡ "task.reject" → IsCommand command
  task_retry : command ≡ "task.retry" → IsCommand command
  executor_pause : command ≡ "executor.pause" → IsCommand command
  executor_resume : command ≡ "executor.resume" → IsCommand command
  notice_dismiss : command ≡ "notice.dismiss" → IsCommand command
  resync_panel : command ≡ "system.resync_panel" → IsCommand command

-- The commands with an argument, and its key
pub data Takes (command key : String) : Type 0 where
  confirm_task : command ≡ "task.confirm" → key ≡ "task_id" → Takes command key
  reject_task : command ≡ "task.reject" → key ≡ "task_id" → Takes command key
  retry_task : command ≡ "task.retry" → key ≡ "task_id" → Takes command key
  dismiss_notice : command ≡ "notice.dismiss" → key ≡ "notice_id" → Takes command key

pub record IsListed (e : CommandEnvelope) : Type 0 where
  pub request_id : IsUuid e.request_id
  pub client_id : IsClientId e.client_id
  pub reply_to : codes e.reply_to ≢ []
  pub ttl_ms : 0 < e.ttl_ms
  pub command : IsCommand e.command
  pub args : (key : String) (value : Json) → get key e.args ≡ some value → Takes e.command key

codes_nonempty : (s : String) → is_not_empty s ≡ true → codes s ≢ []
codes_nonempty String.[] h = absurd (ground arith)
codes_nonempty (c ∶ s) h = λ e. cc

-- A key that is there is one of those that are allowed.
has_only-among :
    (keys : List String) (args : Fields) (key : String) (value : Json)
    → has_only keys args ≡ true
    → get key args ≡ some value
    → is_among key keys ≡ true
unfolding has_only get
has_only-among keys empty_dict key value h g = absurd (ground arith)
has_only-among keys (field k v fields) key value h g = elim (Bool-cases (str_eq k key)) [
  | inl same ↦ subst (λ x. is_among x keys ≡ true) ((eq_iff k key).0 same) (ground arith)
  | inr other ↦ has_only-among keys fields key value (ground arith) (ground arith)
]

-- A command with its keys is an entry of a whitelist.
abbrev IsEntry : String → List String → List Command → Type 0
IsEntry command keys [] = ⊥
IsEntry command keys ((c, ks) ∷ rest) = ((command ≡ c) × (ks ≡ keys)) ⊎ IsEntry command keys rest

expected_keys-IsEntry :
    (command : String) (keys : List String) (whitelist : List Command)
    → expected_keys command whitelist ≡ some keys
    → IsEntry command keys whitelist
unfolding expected_keys
expected_keys-IsEntry command keys [] h = absurd (ground arith)
expected_keys-IsEntry command keys ((c, ks) ∷ rest) h = elim (Bool-cases (str_eq command c)) [
  | inl same ↦ inl ((eq_iff command c).0 same, ground arith)
  | inr other ↦ inr (expected_keys-IsEntry command keys rest (ground arith))
]

only_key :
    (key k : String) (keys : List String) → k ∷ [] ≡ keys → is_among key keys ≡ true → key ≡ k
unfolding is_among
only_key key k keys e h =
    let one : is_among key (k ∷ []) ≡ true = subst (λ ks. is_among key ks ≡ true) (sym e) h in
    (eq_iff key k).0 (ground arith)

no_key : (key : String) (keys : List String) → [] ≡ keys → is_among key keys ≡ true → ⊥
unfolding is_among
no_key key keys e h =
    let none : is_among key [] ≡ true = subst (λ ks. is_among key ks ≡ true) (sym e) h in
    ground arith

entry_lists :
    (command : String) (keys : List String)
    → IsEntry command keys command_whitelist
    → IsCommand command × ((key : String) → is_among key keys ≡ true → Takes command key)
entry_lists command keys (inl (c, k)) =
    (task_confirm c, λ key h. confirm_task c (only_key key _ keys k h))
entry_lists command keys (inr (inl (c, k))) =
    (task_reject c, λ key h. reject_task c (only_key key _ keys k h))
entry_lists command keys (inr (inr (inl (c, k)))) =
    (task_retry c, λ key h. retry_task c (only_key key _ keys k h))
entry_lists command keys (inr (inr (inr (inl (c, k))))) =
    (executor_pause c, λ key h. absurd (no_key key keys k h))
entry_lists command keys (inr (inr (inr (inr (inl (c, k)))))) =
    (executor_resume c, λ key h. absurd (no_key key keys k h))
entry_lists command keys (inr (inr (inr (inr (inr (inl (c, k))))))) =
    (notice_dismiss c, λ key h. dismiss_notice c (only_key key _ keys k h))
entry_lists command keys (inr (inr (inr (inr (inr (inr (inl (c, k)))))))) =
    (resync_panel c, λ key h. absurd (no_key key keys k h))
entry_lists command keys (inr (inr (inr (inr (inr (inr (inr x))))))) = absurd x

IsWellFormed-IsListed : (e : CommandEnvelope) → IsWellFormed e → IsListed e
IsWellFormed-IsListed e w =
    let (keys, found, only) = w.allowed in
    let (is, takes) =
      entry_lists e.command keys (expected_keys-IsEntry e.command keys command_whitelist found) in
    record {
      request_id = is_uuid-IsUuid e.request_id w.request_id;
      client_id = is_client_id-IsClientId e.client_id w.client_id;
      reply_to = codes_nonempty e.reply_to w.reply_to;
      ttl_ms = w.ttl_ms;
      command = is;
      args = λ key value g. takes key (has_only-among keys e.args key value only g);
    }

module _ (decode : Bytes → Result String) (loads : String → Result Json) where
  -- In every command that the parser lets through, whatever the decoders of UTF-8 and of JSON return,
  -- the request id is groups of 8, 4, 4, 4 and 12 digits 0 to 9 or a to f with dashes between them,
  -- the client id is a lower-case letter or a digit and up to 63 of these or dashes, either with at
  -- most one line feed behind it, the reply topic is not empty, and the time to live is above 0. The
  -- command is one of the seven, and every key of its arguments is the one that the command takes.
  pub parse_command-IsListed :
      (payload : Payload) (e : CommandEnvelope)
      → parse_command decode loads payload ≡ ok e
      → IsListed e
  parse_command-IsListed payload e h =
      IsWellFormed-IsListed e (parse_command-IsWellFormed decode loads payload e h)
