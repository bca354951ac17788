-- ===== src/Uart/Gateway/Send/Outcome.antt =====
-- How a request ends.
use nightshift_opi.Prelude.{
  ℕ, zero, suc, ◌+◌, ◌%◌, ◌≤◌, ◌≡◌, refl, sym, ap, ◌∙◌, ◌⊎◌, inl, inr, true, Option, none, some,
  List, [], ◌∷◌, ◌++◌, All, ◌==◌, append-nil, append_assoc, Result, ok, err, timeout_error, arith,
  Bool-cases, Option-cases,
}
use mathlib.Core.Path.{subst}
use nightshift_opi.Prelude.Bytes.{Bytes}
use nightshift_opi.Uart.Frame.{Frame, request, wire}
use nightshift_opi.Uart.Gateway.{Gateway, next_sequence, set_result}
use nightshift_opi.Uart.Gateway.Send.{Pending, put, pop, answer, attempts, send, max_retries}

-- A future that is done holds a frame of its own sequence number.
abbrev pub Matches : ℕ × Option Frame → Type 0
Matches (j, none) = Unit
Matches (j, some f) = f.sequence ≡ j

put-All : (seq : ℕ) (pending : Pending) → All Matches pending → All Matches (put seq pending)
unfolding put
put-All seq [] a = (tt, tt)
put-All seq ((j, fut) ∷ rest) (m, a) = elim (Bool-cases (j == seq)) [
  | inl same ↦ rw same (tt, a)
  | inr other ↦ rw other (m, put-All seq rest a)
]

pop-All : (seq : ℕ) (pending : Pending) → All Matches pending → All Matches (pop seq pending)
unfolding pop
pop-All seq [] a = tt
pop-All seq ((j, fut) ∷ rest) (m, a) = elim (Bool-cases (j == seq)) [
  | inl same ↦ rw same a
  | inr other ↦ rw other (m, pop-All seq rest a)
]

answer-Matches :
    (seq : ℕ) (pending : Pending) (f : Frame)
    → All Matches pending
    → answer seq pending ≡ some f
    → f.sequence ≡ seq
unfolding answer
answer-Matches seq [] f a h = absurd (ground arith)
answer-Matches seq ((j, none) ∷ rest) f (m, a) h = elim (Bool-cases (j == seq)) [
  | inl same ↦ absurd (ground arith)
  | inr other ↦ answer-Matches seq rest f a (ground arith)
]
answer-Matches seq ((j, some k) ∷ rest) f (m, a) h = elim (Bool-cases (j == seq)) [
  | inl same ↦ ground arith
  | inr other ↦ answer-Matches seq rest f a (ground arith)
]

-- The frame of an answer in the read loop goes to the future of its own number.
pub set_result-All :
    (frame : Frame) (pending : Pending)
    → All Matches pending
    → All Matches (set_result frame.sequence frame pending)
unfolding set_result
set_result-All frame [] a = tt
set_result-All frame ((j, none) ∷ rest) (m, a) = elim (Bool-cases (j == frame.sequence)) [
  | inl same ↦ rw same (ground arith, a)
  | inr other ↦ rw other (tt, set_result-All frame rest a)
]
set_result-All frame ((j, some f) ∷ rest) (m, a) = elim (Bool-cases (j == frame.sequence)) [
  | inl same ↦ rw same (m, a)
  | inr other ↦ rw other (m, set_result-All frame rest a)
]

-- An answer of the number that was sent, or a TimeoutError.
abbrev pub Outcome : ℕ → Result Frame → Type 0
Outcome seq r = ((f : Frame) × (r ≡ ok f) × (f.sequence ≡ seq)) ⊎ (r ≡ err timeout_error)

module _ {App : Type 0} (wait : Gateway App → Gateway App)
    (matched : (g : Gateway App) → All Matches g.pending → All Matches (wait g).pending) where
  attempts-outcome :
      (n seq : ℕ) (bytes : Bytes) (g : Gateway App)
      → All Matches g.pending
      → Outcome seq (attempts wait n seq bytes g).0
  unfolding attempts
  attempts-outcome zero seq bytes g a = inr refl
  attempts-outcome (suc n) seq bytes g a =
      let after =
        wait (record g { pending = put seq g.pending; written = g.written ++ bytes ∷ [] }) in
      let a' : All Matches after.pending = matched _ (put-All seq g.pending a) in
      elim (Bool-cases g.has_writer) [
        | inl writer ↦ elim (Option-cases (answer seq after.pending)) [
          | inl late ↦
              let popped = record after { pending = pop seq after.pending } in
              let e : attempts wait (suc n) seq bytes g ≡ attempts wait n seq bytes popped =
                ground arith in
              subst (λ (x : Result Frame × Gateway App). Outcome seq x.0) (sym e)
                (attempts-outcome n seq bytes popped (pop-All seq after.pending a'))
          | inr (f, e) ↦ inl (f, ground arith, answer-Matches seq after.pending f a' e)
        ]
        | inr gone ↦ inr (ground arith)
      ]

  -- On an open line, with a frame that can be encoded, a request ends with an answer of its own
  -- sequence number or with a TimeoutError. It is assumed that what runs during the waits sets a
  -- future only to a frame of its number, as the read loop does.
  pub send-outcome :
      (command flags : ℕ) (payload bytes : Bytes) (g : Gateway App)
      → All Matches g.pending
      → g.connected ≡ true
      → g.has_writer ≡ true
      → wire (request (g.sequence % 65535 + 1) command payload flags) ≡ ok bytes
      → Outcome (g.sequence % 65535 + 1) (send wait command payload flags g).0
  unfolding send next_sequence
  send-outcome command flags payload bytes g a connected writer w =
      let seq = g.sequence % 65535 + 1 in
      let g' = record g { sequence = seq } in
      let e : send wait command payload flags g ≡ attempts wait (max_retries + 1) seq bytes g' =
        ground arith in
      subst (λ (x : Result Frame × Gateway App). Outcome seq x.0) (sym e)
        (attempts-outcome (max_retries + 1) seq bytes g' a)

-- The same bytes, a number of times.
abbrev pub copies : ℕ → Bytes → List Bytes
copies zero bytes = []
copies (suc n) bytes = bytes ∷ copies n bytes

module _ {App : Type 0} (wait : Gateway App → Gateway App)
    (silent : (g : Gateway App) → (wait g).written ≡ g.written) where
  attempts-copies :
      (n seq : ℕ) (bytes : Bytes) (g : Gateway App)
      → (k : ℕ) × (k ≤ n) × ((attempts wait n seq bytes g).1.written ≡ g.written ++ copies k bytes)
  unfolding attempts
  attempts-copies zero seq bytes g = (0, omega arith, sym (append-nil g.written))
  attempts-copies (suc n) seq bytes g =
      let asked = record g { pending = put seq g.pending; written = g.written ++ bytes ∷ [] } in
      let after = wait asked in
      let popped = record after { pending = pop seq after.pending } in
      let one : after.written ≡ g.written ++ bytes ∷ [] = silent asked in
      elim (Bool-cases g.has_writer) [
        | inl writer ↦ elim (Option-cases (answer seq after.pending)) [
          | inl late ↦
              let (k, le, e) = attempts-copies n seq bytes popped in
              (
                suc k,
                omega arith,
                let step : attempts wait (suc n) seq bytes g ≡ attempts wait n seq bytes popped =
                      ground arith in
                    ap (λ (x : Result Frame × Gateway App). x.1.written) step
                    ∙ e
                    ∙ ap (λ (w : List Bytes). w ++ copies k bytes) one
                    ∙ append_assoc g.written (bytes ∷ []) (copies k bytes),
              )
          | inr (f, e) ↦ (
            1,
            omega arith,
            let step : attempts wait (suc n) seq bytes g ≡ (ok f, popped) = ground arith in
                ap (λ (x : Result Frame × Gateway App). x.1.written) step ∙ one,
          )
        ]
        | inr gone ↦ (
          0,
          omega arith,
          let step : attempts wait (suc n) seq bytes g
                  ≡ (err timeout_error, record g { pending = pop seq (put seq g.pending) }) =
                ground arith in
              ap (λ (x : Result Frame × Gateway App). x.1.written) step
              ∙ sym (append-nil g.written),
        )
      ]

  -- On an open line, with a frame that can be encoded, a request writes its bytes, with one sequence
  -- number, at most four times and nothing else, where nothing else is written during the waits.
  pub send-copies :
      (command flags : ℕ) (payload bytes : Bytes) (g : Gateway App)
      → g.connected ≡ true
      → g.has_writer ≡ true
      → wire (request (g.sequence % 65535 + 1) command payload flags) ≡ ok bytes
      → (k : ℕ) × (k ≤ 4)
        × ((send wait command payload flags g).1.written ≡ g.written ++ copies k bytes)
  unfolding send next_sequence
  send-copies command flags payload bytes g connected writer w =
      let seq = g.sequence % 65535 + 1 in
      let g' = record g { sequence = seq } in
      let e : send wait command payload flags g ≡ attempts wait (max_retries + 1) seq bytes g' =
        ground arith in
      let (k, le, c) = attempts-copies (max_retries + 1) seq bytes g' in
      (k, le, ap (λ (x : Result Frame × Gateway App). x.1.written) e ∙ c)
