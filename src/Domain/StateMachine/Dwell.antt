-- ===== src/Domain/StateMachine/Dwell.antt =====
-- What the state machine decides, over the history of its inputs.
use nightshift_opi.Prelude.{
  ℕ, ◌+◌, ◌≤◌, ◌≡◌, ◌↔◌, refl, ap, Bool, true, false, ◌&&◌, ◌||◌, not, Option, none, some, List, [],
  ◌∷◌, ◌++◌, if◌then◌else◌, All, arith, Option-cases, Bool-cases, inl, inr,
}
use nightshift_opi.Domain.Pressure.{PressureState, is_valid, cushion, footrest}
use nightshift_opi.Domain.Models.{SystemMode, day_work, night_exec, no_attention, sensor_error}
use nightshift_opi.Domain.StateMachine.{StateMachine, evaluate}

-- For any state of the timer, an input that is not valid is answered with IDLE and a sensor error;
-- a valid one without attention, and with DAY_WORK exactly when cushion or footrest is pressed.
pub decision_table :
    (sm : StateMachine) (p : PressureState) (now_ms : ℕ)
    → let d = (evaluate sm p now_ms).1 in
      (is_valid p now_ms sm.stale_ms ≡ false
        → (d.mode ≡ SystemMode.idle) × (d.attention ≡ sensor_error))
      × (is_valid p now_ms sm.stale_ms ≡ true
          → (d.attention ≡ no_attention) × ((d.mode ≡ day_work) ↔ (cushion p || footrest p ≡ true)))
unfolding evaluate is_valid cushion footrest
decision_table sm p now_ms = ground arith

-- One call of `evaluate`: the pressure state and the time that it was given.
abbrev pub Input : Type 0
Input = PressureState × ℕ

unfoldable pub released : ℕ → Input → Bool
released stale_ms (p, now_ms) = is_valid p now_ms stale_ms && not (cushion p || footrest p)

-- A fresh machine after a history of calls, the newest first.
unfoldable pub run : ℕ → ℕ → List Input → StateMachine
run dwell_ms stale_ms [] = record {
  dwell_ms = dwell_ms;
  stale_ms = stale_ms;
  all_released_since_ms = none;
}
run dwell_ms stale_ms ((p, now_ms) ∷ older) = (evaluate (run dwell_ms stale_ms older) p now_ms).0

-- The time of the oldest call in the unbroken row of released calls that ends with the newest.
unfoldable pub streak : ℕ → List Input → Option ℕ
streak stale_ms [] = none
streak stale_ms ((p, now_ms) ∷ older) =
    if released stale_ms (p, now_ms)
    then (elim (streak stale_ms older) [ none ↦ some now_ms | some t ↦ some t ])
    else none

evaluate-since :
    (sm : StateMachine) (p : PressureState) (now_ms : ℕ)
    → (evaluate sm p now_ms).0 ≡ record sm {
      all_released_since_ms =
          if released sm.stale_ms (p, now_ms)
          then (elim sm.all_released_since_ms [ none ↦ some now_ms | some t ↦ some t ])
          else none;
    }
unfolding evaluate released is_valid cushion footrest
evaluate-since sm p now_ms = ground arith

run-streak :
    (dwell_ms stale_ms : ℕ) (history : List Input)
    → run dwell_ms stale_ms history ≡ record {
      dwell_ms = dwell_ms;
      stale_ms = stale_ms;
      all_released_since_ms = streak stale_ms history;
    }
unfolding run streak
run-streak dwell_ms stale_ms [] = refl
run-streak dwell_ms stale_ms ((p, now_ms) ∷ older) =
    rw (evaluate-since (run dwell_ms stale_ms older) p now_ms, run-streak dwell_ms stale_ms older)

run-since :
    (dwell_ms stale_ms : ℕ) (history : List Input) (t : ℕ)
    → (run dwell_ms stale_ms history).all_released_since_ms ≡ some t
    → streak stale_ms history ≡ some t
run-since dwell_ms stale_ms history t h =
    cc (ap (λ (sm : StateMachine). sm.all_released_since_ms) (run-streak dwell_ms stale_ms history))

since-run :
    (dwell_ms stale_ms : ℕ) (history : List Input) (t : ℕ)
    → streak stale_ms history ≡ some t
    → (run dwell_ms stale_ms history).all_released_since_ms ≡ some t
since-run dwell_ms stale_ms history t h = rw (run-streak dwell_ms stale_ms history) h

run-dwell :
    (dwell_ms stale_ms : ℕ) (history : List Input)
    → (run dwell_ms stale_ms history).dwell_ms ≡ dwell_ms
run-dwell dwell_ms stale_ms history = rw (run-streak dwell_ms stale_ms history)

-- The decision, read off the timer that the call leaves behind.
night_of_since :
    (sm : StateMachine) (p : PressureState) (now_ms t : ℕ)
    → (evaluate sm p now_ms).0.all_released_since_ms ≡ some t
    → t + sm.dwell_ms ≤ now_ms
    → (evaluate sm p now_ms).1.mode ≡ night_exec
unfolding evaluate is_valid
night_of_since sm p now_ms t h k = ground arith

since_of_night :
    (sm : StateMachine) (p : PressureState) (now_ms : ℕ)
    → (evaluate sm p now_ms).1.mode ≡ night_exec
    → (t : ℕ) × ((evaluate sm p now_ms).0.all_released_since_ms ≡ some t)
      × (t + sm.dwell_ms ≤ now_ms)
unfolding evaluate is_valid
since_of_night sm p now_ms h = elim (Option-cases (evaluate sm p now_ms).0.all_released_since_ms) [
  | inl e ↦ absurd (ground arith)
  | inr (t, e) ↦ (t, e, ground arith)
]

-- A call of the history at which the input was valid and nothing was pressed.
abbrev pub WasReleased : ℕ → Input → Type 0
WasReleased stale_ms e = released stale_ms e ≡ true

row_of_streak :
    (stale_ms : ℕ) (history : List Input) (t : ℕ)
    → streak stale_ms history ≡ some t
    → (recent : List Input) × (p : PressureState) × (older : List Input) × (history
        ≡ recent ++ (p, t) ∷ older)
      × All (WasReleased stale_ms) (recent ++ (p, t) ∷ [])
unfolding streak
row_of_streak stale_ms [] t h = cc
row_of_streak stale_ms ((p, now_ms) ∷ older) t h =
    elim (Bool-cases (released stale_ms (p, now_ms))) [
      | inl r ↦ elim (Option-cases (streak stale_ms older)) [
        | inl e ↦ ([], p, older, ground arith, ground arith)
        | inr (u, e) ↦
            let (recent, q, rest, shape, all) = row_of_streak stale_ms older t (ground arith) in
            ((p, now_ms) ∷ recent, q, rest, ap (◌∷◌ (p, now_ms)) shape, (r, all))
      ]
      | inr r ↦ absurd (ground arith)
    ]

streak_le :
    (stale_ms bound : ℕ) (history : List Input) (t : ℕ)
    → All (λ (e : Input). e.1 ≤ bound) history
    → streak stale_ms history ≡ some t
    → t ≤ bound
unfolding streak
streak_le stale_ms bound [] t h k = cc
streak_le stale_ms bound ((p, now_ms) ∷ older) t h k =
    ground (arith, streak_le stale_ms bound older t)

streak_of_row :
    (stale_ms : ℕ) (recent : List Input) (p : PressureState) (t : ℕ) (older : List Input)
    → All (WasReleased stale_ms) (recent ++ (p, t) ∷ [])
    → All (λ (e : Input). e.1 ≤ t) older
    → (u : ℕ) × (streak stale_ms (recent ++ (p, t) ∷ older) ≡ some u) × (u ≤ t)
unfolding streak
streak_of_row stale_ms [] p t older h k = elim (Option-cases (streak stale_ms older)) [
  | inl e ↦ (t, ground arith, omega arith)
  | inr (u, e) ↦ (u, ground arith, streak_le stale_ms t older u k e)
]
streak_of_row stale_ms ((q, now_ms) ∷ recent) p t older h k =
    let (u, e, le) = streak_of_row stale_ms recent p t older h.1 k in (u, ground arith, le)

-- The last call of a history is answered with NIGHT_EXEC only if the history ends with an
-- unbroken row of calls with valid input and nothing pressed, the first of them at least the
-- dwell time before the last.
pub night_needs_dwell :
    (dwell_ms stale_ms now_ms : ℕ) (p : PressureState) (history : List Input)
    → (evaluate (run dwell_ms stale_ms history) p now_ms).1.mode ≡ night_exec
    → (recent : List Input) × (q : PressureState) × (t : ℕ) × (older : List Input) × ((p, now_ms)
          ∷ history
        ≡ recent ++ (q, t) ∷ older)
      × All (WasReleased stale_ms) (recent ++ (q, t) ∷ [])
      × (t + dwell_ms ≤ now_ms)
unfolding run
night_needs_dwell dwell_ms stale_ms now_ms p history h =
    let sm = run dwell_ms stale_ms history in
    let (t, since, held) = since_of_night sm p now_ms h in
    let (recent, q, older, shape, all) =
      row_of_streak stale_ms ((p, now_ms) ∷ history) t
        (run-since dwell_ms stale_ms ((p, now_ms) ∷ history) t since) in
    (recent, q, t, older, shape, all, omega (arith, run-dwell dwell_ms stale_ms history))

-- After such a row, if no call before the row has a later time than its first, the last call is
-- answered with NIGHT_EXEC.
pub night_after_dwell :
    (dwell_ms stale_ms now_ms t : ℕ) (p q : PressureState) (history recent older : List Input)
    → (p, now_ms) ∷ history ≡ recent ++ (q, t) ∷ older
    → All (WasReleased stale_ms) (recent ++ (q, t) ∷ [])
    → All (λ (e : Input). e.1 ≤ t) older
    → t + dwell_ms ≤ now_ms
    → (evaluate (run dwell_ms stale_ms history) p now_ms).1.mode ≡ night_exec
unfolding run
night_after_dwell dwell_ms stale_ms now_ms t p q history recent older shape all before held =
    let (u, e, le) = streak_of_row stale_ms recent q t older all before in
    night_of_since (run dwell_ms stale_ms history) p now_ms u
      (since-run dwell_ms stale_ms ((p, now_ms) ∷ history) u (rw shape e))
      (omega (arith, run-dwell dwell_ms stale_ms history))
