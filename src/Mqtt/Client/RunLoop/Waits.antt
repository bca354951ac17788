-- ===== src/Mqtt/Client/RunLoop/Waits.antt =====
-- How long the client waits before it connects again.
use Prim.Native.String.{String}
use nightshift_opi.Prelude.{
  ℕ, zero, suc, ◌^◌, ◌≡◌, ◌⊎◌, inl, inr, refl, sym, ap, ◌∙◌, Bool, true, false, List, [], ◌∷◌, All,
  length, min, Result, ok, err, mqtt_error, arith,
}
use mathlib.Core.Path.{subst}
use nightshift_opi.Prelude.Bytes.{Bytes}
use nightshift_opi.Prelude.Exec.{Exec, ◌>>◌, modify}
use nightshift_opi.Services.Orchestrator.{Environment}
use nightshift_opi.Uart.Session.{Digest}
use nightshift_opi.Mqtt.Json.{Json}
use nightshift_opi.Mqtt.Publisher.{Message}
use nightshift_opi.Mqtt.Backoff.{backoff_after, next_backoff, next_backoff_after}
use nightshift_opi.Mqtt.Client.{MqttClient}
use nightshift_opi.Mqtt.Client.RunLoop.{
  Arrival, Round, call, publish_or_raise, publish_current, publish_online, publish_offline, iterate,
  connect_and_run, run_loop,
}

-- The stop event is not set in the whole round.
abbrev pub IsRunning : Round → Type 0
IsRunning round =
    (round.stopped ≡ false)
    × (round.stopped_in_wait ≡ false)
    × All (λ (a : Arrival). a.stopped ≡ false) round.arrivals

-- A method that raises whatever the state, and one that raises only that exception.
abbrev Raises : Exec MqttClient Unit → Type 0
Raises m = (c : MqttClient) → (m c).0 ≡ err mqtt_error

abbrev MayRaise : Exec MqttClient Unit → Type 0
MayRaise m = (c : MqttClient) → ((m c).0 ≡ ok tt) ⊎ ((m c).0 ≡ err mqtt_error)

first-Raises : (m n : Exec MqttClient Unit) → Raises m → Raises (m >> n)
first-Raises m n h c = rw (h c) refl

second-Raises : (m n : Exec MqttClient Unit) → MayRaise m → Raises n → Raises (m >> n)
second-Raises m n h k c = elim (h c) [ inl e ↦ rw (e) (k (m c).1) | inr e ↦ rw (e) refl ]

call-MayRaise : (works : Bool) → MayRaise (call works)
call-MayRaise true c = inl refl
call-MayRaise false c = inr refl

publish-MayRaise :
    (accepts : Message → Bool) (message : Message) → MayRaise (publish_or_raise accepts message)
unfolding publish_or_raise
publish-MayRaise accepts message c = ground arith

current-MayRaise : (accepts : Message → Bool) → MayRaise (publish_current accepts)
unfolding publish_current
current-MayRaise accepts c = publish-MayRaise accepts _ c

-- The waits behind n rounds, of which k failed before.
unfoldable pub waits_from : ℕ → ℕ → List ℕ
waits_from k zero = []
waits_from k (suc n) = min (2 ^ k) 30 ∷ waits_from (suc k) n

module _ (env : Environment) (hash_json : Json → Digest) (decode : Bytes → Result String)
    (loads : String → Result Json) where
  iterate_raises :
      (accepts : Message → Bool) (arrivals : List Arrival) (c : MqttClient)
      → All (λ (a : Arrival). a.stopped ≡ false) arrivals
      → (iterate env hash_json decode loads accepts arrivals c).0 ≡ err mqtt_error
  unfolding iterate
  iterate_raises accepts [] c h = refl
  iterate_raises accepts (a ∷ rest) c (h, hs) = rw (h) (iterate_raises accepts rest _ hs)

  module _ (boot_id : String) (started_at_ms : ℕ) where
    online-MayRaise :
        (accepts : Message → Bool)
        → MayRaise (publish_online env hash_json decode loads boot_id started_at_ms accepts)
    unfolding publish_online
    online-MayRaise accepts c = publish-MayRaise accepts _ c

    connect_and_run_raises :
        (round : Round) (c : MqttClient)
        → All (λ (a : Arrival). a.stopped ≡ false) round.arrivals
        → (connect_and_run env hash_json decode loads boot_id started_at_ms round c).0
          ≡ err mqtt_error
    unfolding connect_and_run
    connect_and_run_raises round c h =
        let up = publish_online env hash_json decode loads boot_id started_at_ms round.accepts in
        let shown = publish_current round.accepts in
        let iterated = iterate env hash_json decode loads round.accepts round.arrivals in
        let entered : Exec MqttClient Unit = modify (λ c. record c { has_publisher = true }) in
        let left = modify (publish_offline round.accepts) >> call round.disconnects in
        let subscribed = call round.subscribes in
        let run = iterated >> left in
        second-Raises (call round.connects) (entered >> (subscribed >> (up >> (shown >> run))))
          (call-MayRaise round.connects)
          (second-Raises entered (subscribed >> (up >> (shown >> run))) (λ c. inl refl)
            (second-Raises subscribed (up >> (shown >> run)) (call-MayRaise round.subscribes) (
              second-Raises up (shown >> run) (online-MayRaise round.accepts) (
                second-Raises shown run (current-MayRaise round.accepts) (
                  first-Raises iterated left
                    (λ c. iterate_raises round.accepts round.arrivals c h))))))
          c

    -- The client behind a round that raised.
    abbrev left_by : Round → MqttClient → MqttClient
    left_by round c =
        let (r, c') = connect_and_run env hash_json decode loads boot_id started_at_ms round c in
        record c' { has_publisher = false }

    waits_round :
        (backoff : ℕ) (round : Round) (rest : List Round) (c : MqttClient)
        → IsRunning round
        → let loop = run_loop env hash_json decode loads boot_id started_at_ms in
          (loop backoff (round ∷ rest) c).0
          ≡ backoff ∷ (loop (next_backoff backoff) rest (left_by round c)).0
    unfolding run_loop
    waits_round backoff round rest c (head, wait, arrivals) =
        ground (arith, connect_and_run_raises round c arrivals)

    waits_after :
        (k : ℕ) (rounds : List Round) (c : MqttClient)
        → All IsRunning rounds
        → (run_loop env hash_json decode loads boot_id started_at_ms (backoff_after k) rounds c).0
          ≡ waits_from k (length rounds)
    unfolding run_loop waits_from
    waits_after k [] c h = refl
    waits_after k (round ∷ rest) c (running, hs) =
        waits_round (backoff_after k) round rest c running
        ∙ ap (◌∷◌ (backoff_after k)) (
            subst
              (λ b.
                (run_loop env hash_json decode loads boot_id started_at_ms b rest
                  (left_by round c)).0
                ≡ waits_from (suc k) (length rest))
              (sym (next_backoff_after k)) (waits_after (suc k) rest (left_by round c) hs))

    -- As long as the stop event is not set, the wait behind the i-th round is 2 to the power i seconds,
    -- 30 at most: it depends neither on whether the connections before were made nor on what was
    -- received over them.
    pub waits_run_loop :
        (rounds : List Round) (c : MqttClient)
        → All IsRunning rounds
        → (run_loop env hash_json decode loads boot_id started_at_ms 1 rounds c).0
          ≡ waits_from 0 (length rounds)
    waits_run_loop rounds c h = waits_after 0 rounds c h
