-- ===== src/Uart/Gateway/Send/Unanswered.antt =====
-- A request while no response can be delivered, as from inside the handler of a UI action: the read
-- loop, which alone sets the futures, waits for that handler (`_handle_ui_action` in gateway.py).
use nightshift_opi.Prelude.{
  ℕ, zero, suc, ◌+◌, ◌%◌, ◌≡◌, refl, sym, ap, ◌∙◌, true, Bool-cases, inl, inr, none, List, [], ◌∷◌,
  ◌++◌, ◌==◌, append-nil, append_assoc, Result, ok, err, timeout_error, arith,
}
use nightshift_opi.Prelude.Bytes.{Bytes}
use nightshift_opi.Uart.Frame.{Frame, request, wire}
use nightshift_opi.Uart.Gateway.{Gateway, next_sequence}
use nightshift_opi.Uart.Gateway.Send.{Pending, put, pop, answer, attempts, send, max_retries}
use nightshift_opi.Uart.Gateway.Send.Outcome.{copies}

answer-put : (seq : ℕ) (pending : Pending) → answer seq (put seq pending) ≡ none
unfolding answer put
answer-put seq [] = ground arith
answer-put seq ((j, fut) ∷ rest) = elim (Bool-cases (j == seq)) [
  | inl same ↦ ground arith
  | inr other ↦ ground (arith, answer-put seq rest)
]

module _ {App : Type 0} (wait : Gateway App → Gateway App)
    (undelivered : (g : Gateway App) → (wait g).pending ≡ g.pending)
    (open_line : (g : Gateway App) → (wait g).has_writer ≡ g.has_writer)
    (silent : (g : Gateway App) → (wait g).written ≡ g.written) where
  attempts_time_out :
      (n seq : ℕ) (bytes : Bytes) (g : Gateway App)
      → g.has_writer ≡ true
      → let (r, g') = attempts wait n seq bytes g in
        (r ≡ err timeout_error) × (g'.written ≡ g.written ++ copies n bytes)
  unfolding attempts
  attempts_time_out zero seq bytes g w = (refl, sym (append-nil g.written))
  attempts_time_out (suc n) seq bytes g w =
      let asked = record g { pending = put seq g.pending; written = g.written ++ bytes ∷ [] } in
      let after = wait asked in
      let popped = record after { pending = pop seq after.pending } in
      let late : answer seq after.pending ≡ none =
        ap (answer seq) (undelivered asked) ∙ answer-put seq g.pending in
      let step : attempts wait (suc n) seq bytes g ≡ attempts wait n seq bytes popped =
        ground arith in
      let (out, rest) = attempts_time_out n seq bytes popped (open_line asked ∙ w) in
      (
        ap (λ (x : Result Frame × Gateway App). x.0) step ∙ out,
        ap (λ (x : Result Frame × Gateway App). x.1.written) step
            ∙ rest
            ∙ ap (λ (w : List Bytes). w ++ copies n bytes) (silent asked)
            ∙ append_assoc g.written (bytes ∷ []) (copies n bytes),
      )

  -- On an open line, a request that can be encoded is written four times and then ends with a
  -- TimeoutError, if during the waits no future is set, the line stays open and nothing else is
  -- written.
  pub send_unanswered :
      (command flags : ℕ) (payload bytes : Bytes) (g : Gateway App)
      → g.connected ≡ true
      → g.has_writer ≡ true
      → wire (request (g.sequence % 65535 + 1) command payload flags) ≡ ok bytes
      → let (r, g') = send wait command payload flags g in
        (r ≡ err timeout_error) × (g'.written ≡ g.written ++ bytes ∷ bytes ∷ bytes ∷ bytes ∷ [])
  unfolding send next_sequence
  send_unanswered command flags payload bytes g connected writer w =
      let seq = g.sequence % 65535 + 1 in
      let g' = record g { sequence = seq } in
      let e : send wait command payload flags g ≡ attempts wait (max_retries + 1) seq bytes g' =
        ground arith in
      let (out, written) = attempts_time_out (max_retries + 1) seq bytes g' writer in
      (
        ap (λ (x : Result Frame × Gateway App). x.0) e ∙ out,
        ap (λ (x : Result Frame × Gateway App). x.1.written) e ∙ written,
      )
