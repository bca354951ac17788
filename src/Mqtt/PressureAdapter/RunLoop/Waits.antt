-- ===== src/Mqtt/PressureAdapter/RunLoop/Waits.antt =====
-- How long the adapter waits before it connects again.
use Prim.Native.String.{String}
use nightshift_opi.Prelude.{
  ℕ, suc, ◌^◌, ◌≡◌, inl, inr, refl, sym, ap, ◌∙◌, Bool, false, Bool-cases, List, [], ◌∷◌, All, min,
  if◌then◌else◌, Error, Result, Result-cases, err, mqtt_error, arith,
}
use mathlib.Core.Path.{subst}
use nightshift_opi.Prelude.Bytes.{Bytes}
use nightshift_opi.Mqtt.Json.{Json}
use nightshift_opi.Mqtt.Backoff.{backoff_after, next_backoff, next_backoff_after}
use nightshift_opi.Mqtt.PressureAdapter.{PressureMqttAdapter}
use nightshift_opi.Mqtt.PressureAdapter.RunLoop.{
  Arrival, Round, has_subscribed, receive, iterate, listen, run_loop,
}

-- The stop event is not set in the whole round.
abbrev pub IsRunning : Round → Type 0
IsRunning round =
    (round.stopped ≡ false)
    × (round.stopped_in_wait ≡ false)
    × All (λ (a : Arrival). a.stopped ≡ false) round.arrivals

-- The waits, where k rounds failed since one subscribed to the topics, that round included: behind
-- one that subscribes the count starts again.
unfoldable pub waits_from : ℕ → List Round → List ℕ
waits_from k [] = []
waits_from k (round ∷ rest) =
    let fails = if round.connects then (if round.subscribes then 0 else k) else k in
    min (2 ^ fails) 30 ∷ waits_from (suc fails) rest

module _ (loads : Bytes → Result Json) (base_topic : String) where
  iterate_raises :
      (disconnects : Bool) (arrivals : List Arrival) (a : PressureMqttAdapter)
      → All (λ (m : Arrival). m.stopped ≡ false) arrivals
      → (e : Error) × ((iterate loads base_topic disconnects arrivals a).0 ≡ err e)
  unfolding iterate
  iterate_raises disconnects [] a h = (mqtt_error, refl)
  iterate_raises disconnects (m ∷ rest) a (h, hs) =
      let (r, a') = receive loads base_topic m a in
      let (e, rec) = iterate_raises disconnects rest a' hs in
      elim (Result-cases r) [
        | inl (u, q) ↦ (e, ground (arith, rec))
        | inr (x, q) ↦ (x, ground arith)
      ]

  listen_raises :
      (round : Round) (a : PressureMqttAdapter)
      → IsRunning round
      → (e : Error) × ((listen loads base_topic round a).0 ≡ err e)
  unfolding listen
  listen_raises round a (head, wait, arrivals) = elim (Bool-cases (has_subscribed round)) [
    | inl t ↦
        let (e, h) = iterate_raises round.disconnects round.arrivals a arrivals in (e, ground arith)
    | inr f ↦ (mqtt_error, ground arith)
  ]

  waits_round :
      (k : ℕ) (round : Round) (rest : List Round) (a : PressureMqttAdapter)
      → IsRunning round
      → let fails = if round.connects then (if round.subscribes then 0 else k) else k in
        (run_loop loads base_topic (backoff_after k) (round ∷ rest) a).0
        ≡ backoff_after fails
          ∷ (run_loop loads base_topic
              (next_backoff (backoff_after fails))
              rest
              (listen loads base_topic round a).1).0
  unfolding run_loop has_subscribed
  waits_round k round rest a (head, wait, arrivals) =
      let (e, h) = listen_raises round a (head, wait, arrivals) in
      elim (Bool-cases round.connects) [
        | inr c ↦ ground arith
        | inl c ↦ elim (Bool-cases round.subscribes) [ inl s ↦ ground arith | inr s ↦ ground arith ]
      ]

  waits_after :
      (k : ℕ) (rounds : List Round) (a : PressureMqttAdapter)
      → All IsRunning rounds
      → (run_loop loads base_topic (backoff_after k) rounds a).0 ≡ waits_from k rounds
  unfolding run_loop waits_from
  waits_after k [] a h = refl
  waits_after k (round ∷ rest) a (running, hs) =
      let fails = if round.connects then (if round.subscribes then 0 else k) else k in
      let a' = (listen loads base_topic round a).1 in
      waits_round k round rest a running
      ∙ ap (◌∷◌ (backoff_after fails)) (
          subst (λ b. (run_loop loads base_topic b rest a').0 ≡ waits_from (suc fails) rest)
            (sym (next_backoff_after fails)) (waits_after (suc fails) rest a' hs))

  -- As long as the stop event is not set, the wait behind a round is 2 to the power k seconds, 30 at
  -- most, where k counts the rounds since the topics were last subscribed to, whatever was received:
  -- it is 1 second behind a round that subscribed.
  pub waits_since_subscribed :
      (rounds : List Round) (a : PressureMqttAdapter)
      → All IsRunning rounds
      → (run_loop loads base_topic 1 rounds a).0 ≡ waits_from 0 rounds
  waits_since_subscribed rounds a h = waits_after 0 rounds a h
