-- ===== src/Services/Orchestrator/Listeners.antt =====
-- The listeners of the orchestrator and its tick task (nightshift/services/orchestrator.py).
use nightshift_opi.Prelude.{ℕ, List, [], ◌∷◌, ◌++◌, All}
use nightshift_opi.Prelude.Bytes.{Bytes}
use nightshift_opi.Prelude.Exec.{Exec}
use nightshift_opi.Prelude.Exec.Keeps.{Keeps}
use nightshift_opi.Domain.Events.{DomainEvent}
use nightshift_opi.Domain.Models.{SystemState}
use nightshift_opi.Domain.Pressure.{PressureState}
use nightshift_opi.Services.Orchestrator.{Orchestrator, Environment}
use nightshift_opi.Services.Orchestrator.Apply.{evaluate_and_apply}
use nightshift_opi.Services.Orchestrator.Invariant.{Later, Later-refl, Later-trans, Relies}
use nightshift_opi.Services.Orchestrator.Invariant.Evaluation.{evaluate_and_apply-Later}

-- A coroutine that may raise and, since it may call the orchestrator and other tasks run while it
-- waits, change it.
abbrev pub Listener : Type 0 → Type 0
Listener A = A → Exec Orchestrator Unit

-- `_notify_state_listeners` and `_notify_event_listeners`: an exception is logged.
unfoldable pub notify : {A : Type 0} → List (Listener A) → A → Orchestrator → Orchestrator
notify [] a o = o
notify (listener ∷ rest) a o = notify rest a (listener a o).1

-- The lists of `register_state_listener` and `register_event_listener`
pub record Listeners : Type 0 where
  pub states : List (Listener SystemState)
  pub events : List (Listener DomainEvent)

abbrev pub no_listeners : Listeners
no_listeners = record { states = []; events = [] }

unfoldable pub register_state_listener : Listener SystemState → Listeners → Listeners
register_state_listener listener l = record l { states = l.states ++ listener ∷ [] }

unfoldable pub register_event_listener : Listener DomainEvent → Listeners → Listeners
register_event_listener listener l = record l { events = l.events ++ listener ∷ [] }

-- The orchestrator's environment with these listeners, where `send` is `self._uart.send`.
unfoldable pub listening : (ℕ → Bytes → Exec Orchestrator Unit) → Listeners → Environment
listening send l = record {
  send = send;
  state_listeners = notify l.states;
  event_listeners = notify l.events;
}

-- `on_pressure_updated`, with the snapshot and the time that it reads
unfoldable pub on_pressure_updated : Environment → PressureState → ℕ → Orchestrator → Orchestrator
on_pressure_updated env = evaluate_and_apply env

-- The rounds of `_tick_loop` up to its cancellation. `meanwhile` is what other tasks do during the
-- sleep before the round, and the snapshot and the time are those that the round reads.
pub record Tick : Type 0 where
  pub meanwhile : Orchestrator → Orchestrator
  pub pressure : PressureState
  pub now_ms : ℕ

unfoldable pub tick_loop : Environment → List Tick → Orchestrator → Orchestrator
tick_loop env [] o = o
tick_loop env (tick ∷ rest) o =
    tick_loop env rest (evaluate_and_apply env tick.pressure tick.now_ms (tick.meanwhile o))

notify-Later :
    {A : Type 0} (listeners : List (Listener A)) (a : A) (o : Orchestrator)
    → All (λ (l : Listener A). (a : A) → Keeps Later (l a)) listeners
    → Later o (notify listeners a o)
unfolding notify
notify-Later [] a o h = Later-refl o
notify-Later (l ∷ rest) a o (h, hs) =
    Later-trans o (l a o).1 _ (h a o) (notify-Later rest a (l a o).1 hs)

-- What the orchestrator assumes of its environment holds for any listeners each of which keeps the
-- invariant and lets no revision fall.
pub listening-Relies :
    (send : ℕ → Bytes → Exec Orchestrator Unit) (l : Listeners)
    → ((command : ℕ) (payload : Bytes) → Keeps Later (send command payload))
    → All (λ (f : Listener SystemState). (a : SystemState) → Keeps Later (f a)) l.states
    → All (λ (f : Listener DomainEvent). (a : DomainEvent) → Keeps Later (f a)) l.events
    → Relies (listening send l)
unfolding listening
listening-Relies send l sends states events = record {
  sends = sends;
  states = λ s o. notify-Later l.states s o states;
  events = λ e o. notify-Later l.events e o events;
}

tick_loop-Later :
    (env : Environment) (ticks : List Tick) (o : Orchestrator)
    → Relies env
    → All (λ (t : Tick). (o : Orchestrator) → Later o (t.meanwhile o)) ticks
    → Later o (tick_loop env ticks o)
unfolding tick_loop
tick_loop-Later env [] o rely h = Later-refl o
tick_loop-Later env (t ∷ rest) o rely (h, hs) =
    let slept = t.meanwhile o in
    let ticked = evaluate_and_apply env t.pressure t.now_ms slept in
    Later-trans o slept _ (h o) (
      Later-trans slept ticked _ (evaluate_and_apply-Later env rely t.pressure t.now_ms slept)
        (tick_loop-Later env rest ticked rely hs))

-- Any number of rounds of the tick task, with any registered listeners, exceptions of theirs
-- included, keeps the invariant of the orchestrator and lets no revision fall, if the sends, each
-- listener and what other tasks do between the rounds do so.
pub ticks-Later :
    (send : ℕ → Bytes → Exec Orchestrator Unit) (l : Listeners) (ticks : List Tick)
    (o : Orchestrator)
    → ((command : ℕ) (payload : Bytes) → Keeps Later (send command payload))
    → All (λ (f : Listener SystemState). (a : SystemState) → Keeps Later (f a)) l.states
    → All (λ (f : Listener DomainEvent). (a : DomainEvent) → Keeps Later (f a)) l.events
    → All (λ (t : Tick). (o : Orchestrator) → Later o (t.meanwhile o)) ticks
    → Later o (tick_loop (listening send l) ticks o)
ticks-Later send l ticks o sends states events others =
    tick_loop-Later (listening send l) ticks o (listening-Relies send l sends states events) others
