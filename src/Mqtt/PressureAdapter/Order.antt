-- ===== src/Mqtt/PressureAdapter/Order.antt =====
-- In which order samples are taken over, and what a decoded sample says.
use text.Mathlib.Text.{◌==◌ as str_eq}
use nightshift_opi.Prelude.{
  ℕ, ◌≡◌, ◌≢◌, sym, ap, ◌∙◌, ◌⊎◌, inl, inr, true, false, ◌||◌, some, arith, Result, ok, err,
  Result-cases,
}
use nightshift_opi.Prelude.Bytes.{Bytes}
use nightshift_opi.Prelude.Int.{pos, leb_ℤ}
use nightshift_opi.Domain.Pressure.{PressureSample}
use nightshift_opi.Mqtt.Json.{Json, Fields}
use nightshift_opi.Mqtt.PressureCodec.{
  decode_pressure_state, as_decode_error, dict_of, check_gpio, read_fields,
}
use nightshift_opi.Mqtt.PressureAdapter.{
  PressureMqttAdapter, is_boot, note_boot, accept_sample, handle_state,
}

accept_sample_lem :
    (now_ms : ℕ) (sample : PressureSample) (a : PressureMqttAdapter)
    → let (updated, a') = accept_sample now_ms sample a in
      ((updated ≡ true)
        × (str_eq sample.device_id a.device_id ≡ true)
        × (is_boot sample.boot_id a.last_boot_id ≡ true → leb_ℤ (pos sample.seq) a.last_seq ≡ false)
        × (a'.last_seq ≡ pos sample.seq)
        × (a'.state ≡ record {
          online = a.state.online;
          last_sample = some sample;
          updated_at_ms = now_ms;
        }))
      ⊎ ((updated ≡ false) × (a'.state ≡ a.state))
unfolding accept_sample note_boot
accept_sample_lem now_ms sample a = ground arith

check_gpio_lem :
    (fields : Fields) (read sample : PressureSample)
    → check_gpio fields read ≡ ok sample
    → (read ≡ sample) × (sample.present ≡ (sample.cushion || sample.footrest))
unfolding check_gpio
check_gpio_lem fields read sample h = ground arith

received :
    (fields : Fields) (now_ms : ℕ) (sample : PressureSample)
    → read_fields fields now_ms ≡ ok sample
    → sample.received_at_ms ≡ now_ms
unfolding read_fields
received fields now_ms sample h = ground arith

as_decode_error-ok : {A : Type 0} (r : Result A) (x : A) → as_decode_error r ≡ ok x → r ≡ ok x
unfolding as_decode_error
as_decode_error-ok (ok y) x h = h
as_decode_error-ok (err e) x h = ground arith

module _ (loads : Bytes → Result Json) where
  -- A sample that is decoded is present exactly if the cushion or the footrest is pressed, and has
  -- the time of its receipt.
  pub decode_consistent :
      (raw : Bytes) (now_ms : ℕ) (sample : PressureSample)
      → decode_pressure_state loads raw now_ms ≡ ok sample
      → (sample.present ≡ (sample.cushion || sample.footrest)) × (sample.received_at_ms ≡ now_ms)
  unfolding decode_pressure_state
  decode_consistent raw now_ms sample h = elim (Result-cases (as_decode_error (loads raw))) [
    | inl (value, l) ↦ elim (Result-cases (dict_of value)) [
      | inl (fields, d) ↦ elim (Result-cases (as_decode_error (read_fields fields now_ms))) [
        | inl (read, r) ↦
            let (same, consistent) = check_gpio_lem fields read sample (ground arith) in
            (
              consistent,
              ap (λ (x : PressureSample). x.received_at_ms) (sym same)
                  ∙ received fields now_ms read (as_decode_error-ok _ read r),
            )
        | inr (e, r) ↦ absurd (ground arith)
      ]
      | inr (e, d) ↦ absurd (ground arith)
    ]
    | inr (e, l) ↦ absurd (ground arith)
  ]

  -- A state message either makes the handler call `on_updated`, and then it decodes to a sample of
  -- the configured device whose sequence number is above the last one if its boot is the last one,
  -- and which is taken over with its number while availability stays as it is; or the pressure
  -- state stays as it is.
  pub handle_state_order :
      (raw : Bytes) (now_ms : ℕ) (a : PressureMqttAdapter)
      → let (r, a') = handle_state loads raw now_ms a in
        ((sample : PressureSample) × (r ≡ ok true)
          × (decode_pressure_state loads raw now_ms ≡ ok sample)
          × (str_eq sample.device_id a.device_id ≡ true)
          × (is_boot sample.boot_id a.last_boot_id ≡ true
              → leb_ℤ (pos sample.seq) a.last_seq ≡ false)
          × (a'.last_seq ≡ pos sample.seq)
          × (a'.state ≡ record {
            online = a.state.online;
            last_sample = some sample;
            updated_at_ms = now_ms;
          }))
        ⊎ ((r ≢ ok true) × (a'.state ≡ a.state))
  unfolding handle_state
  handle_state_order raw now_ms a = elim (Result-cases (decode_pressure_state loads raw now_ms)) [
    | inl (sample, d) ↦ elim (accept_sample_lem now_ms sample a) [
      | inl (updated, device, newer, seq, state) ↦
          inl (sample, ground arith, d, device, newer, ground arith, ground arith)
      | inr (dropped, same) ↦ inr (ground arith, ground arith)
    ]
    | inr (e, d) ↦ inr (ground arith, ground arith)
  ]
