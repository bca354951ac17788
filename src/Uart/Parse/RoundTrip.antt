-- ===== src/Uart/Parse/RoundTrip.antt =====
-- Each parser reads what its encoder wrote.
use nightshift_opi.Prelude.{
  ℕ, ◌≡◌, List, [], ◌∷◌, length, All, ok, err, arith, inl, inr, Result-cases, append-nil,
  length-take, ltb, if◌then◌else◌, protocol_error, struct_error, ◌>>=◌, ◌%◌, ◌^◌,
}
use nightshift_opi.Prelude.Bytes.{Bytes, pack-Fits, pack_cases, from_le-le_bytes}
use nightshift_opi.Prelude.Int.{of_signed, to_signed-of_signed}
use nightshift_opi.Uart.Text.{encode_string}
use nightshift_opi.Uart.Text.RoundTrip.{IsCodePoint, decode_string-encode_string}
use nightshift_opi.Uart.Encode.{
  encode_hello, encode_heartbeat_response, encode_ui_action, encode_page_event,
}
use nightshift_opi.Uart.Parse.{
  HelloInfo, UiActionPayload, parse_hello, parse_heartbeat_response, parse_ui_action,
  parse_page_event, parse_get_info_response,
}

-- Any HELLO that can be encoded is parsed back field by field.
pub parse_hello-encode_hello :
    (info : HelloInfo) (payload : Bytes)
    → All IsCodePoint info.software_version
    → encode_hello info.peer_role info.protocol_major info.protocol_minor info.boot_id
        info.max_payload info.capabilities info.software_version
      ≡ ok payload
    → parse_hello payload ≡ ok info
unfolding encode_hello parse_hello
parse_hello-encode_hello info payload valid h =
    let fields : List (ℕ × ℕ) =
      (1, info.peer_role)
      ∷ (1, info.protocol_major)
      ∷ (1, info.protocol_minor)
      ∷ (4, info.boot_id)
      ∷ (2, info.max_payload)
      ∷ (2, info.capabilities)
      ∷ [] in
    elim (pack_cases fields) [
      | inl (fits, e) ↦ elim (Result-cases (encode_string info.software_version)) [
        | inl (text, t) ↦ ground (
          arith,
          append-nil text,
          from_le-le_bytes 4 info.boot_id,
          decode_string-encode_string info.software_version text [] valid t,
        )
        | inr (x, t) ↦ absurd (ground arith)
      ]
      | inr e ↦ absurd (ground arith)
    ]

-- A heartbeat response is parsed back with each field at its width.
pub parse_heartbeat_response-encode :
    (status uptime revision errors : ℕ)
    → (encode_heartbeat_response status uptime revision errors >>= parse_heartbeat_response)
      ≡ ok (record {
        status = status % 2 ^ 16;
        t5_uptime_ms = uptime % 2 ^ 32;
        applied_revision = revision % 2 ^ 32;
        error_flags = errors % 2 ^ 32;
      })
unfolding encode_heartbeat_response parse_heartbeat_response
parse_heartbeat_response-encode status uptime revision errors =
    rw
      (pack-Fits
        ((2, status % 2 ^ 16)
          ∷ (4, uptime % 2 ^ 32)
          ∷ (4, revision % 2 ^ 32)
          ∷ (4, errors % 2 ^ 32)
          ∷ [])
        (omega arith))
      (ground (
        arith,
        from_le-le_bytes 4 (uptime % 2 ^ 32),
        from_le-le_bytes 4 (revision % 2 ^ 32),
        from_le-le_bytes 4 (errors % 2 ^ 32),
      ))

-- A page event is parsed back with each field at its width.
pub parse_page_event-encode :
    (page_id event object_id : ℕ)
    → (encode_page_event page_id event object_id >>= parse_page_event)
      ≡ ok (record {
        page_id = page_id % 2 ^ 8;
        event = event % 2 ^ 8;
        object_id = object_id % 2 ^ 32;
      })
unfolding encode_page_event parse_page_event
parse_page_event-encode page_id event object_id =
    rw
      (pack-Fits ((1, page_id % 2 ^ 8) ∷ (1, event % 2 ^ 8) ∷ (4, object_id % 2 ^ 32) ∷ [])
        (omega arith))
      (ground (arith, from_le-le_bytes 4 (object_id % 2 ^ 32)))

-- Any UI action that can be encoded, a negative value included, is parsed back field by field.
pub parse_ui_action-encode_ui_action :
    (a : UiActionPayload) (payload : Bytes)
    → All IsCodePoint a.text
    → encode_ui_action a.action a.object_type a.object_id a.value a.text ≡ ok payload
    → parse_ui_action payload ≡ ok a
unfolding encode_ui_action parse_ui_action
parse_ui_action-encode_ui_action a payload valid h = elim (Result-cases (of_signed 4 a.value)) [
  | inl (n, v) ↦
      elim (pack_cases ((2, a.action) ∷ (1, a.object_type) ∷ (4, a.object_id) ∷ (4, n) ∷ [])) [
        | inl (fits, e) ↦ elim (Result-cases (encode_string a.text)) [
          | inl (text, t) ↦ ground (
            arith,
            append-nil text,
            from_le-le_bytes 4 a.object_id,
            from_le-le_bytes 4 n,
            to_signed-of_signed 4 n a.value,
            decode_string-encode_string a.text text [] valid t,
          )
          | inr (x, t) ↦ absurd (ground arith)
        ]
        | inr e ↦ absurd (ground arith)
      ]
  | inr (x, v) ↦ absurd (ground arith)
]

-- `parse_get_info_response` returns for no payload: the format wants 16 bytes and is given 14.
pub parse_get_info_response_fails :
    (payload : Bytes)
    → parse_get_info_response payload
      ≡ (if ltb (length payload) 14 then err protocol_error else err struct_error)
unfolding parse_get_info_response
parse_get_info_response_fails payload = ground (arith, length-take 14 payload)
