-- ===== src/Services/Executor.antt =====
-- The executor's life cycle (nightshift/services/executor_service.py).
use mathlib.Core.Path.{subst}
use nightshift_opi.Prelude.{
  ◌≡◌, refl, ap, sym, ◌∙◌, ◌⊎◌, inl, inr, Bool, true, false, List, [], ◌∷◌, ◌++◌, ok, err,
  executor_error, All, ◌≢◌, if◌then◌else◌, arith,
}
use nightshift_opi.Prelude.Exec.{Exec}
use nightshift_opi.Domain.Models.{WorkState, stopped, starting, running, paused, completed, failed}

-- `target in _VALID_TRANSITIONS[state]`
unfoldable pub allowed : WorkState → WorkState → Bool
allowed stopped starting = true
allowed starting running = true
allowed starting failed = true
allowed running paused = true
allowed running completed = true
allowed running failed = true
allowed paused running = true
allowed paused stopped = true
allowed completed stopped = true
allowed failed stopped = true
allowed failed starting = true
allowed _ _ = false

pub record ExecutorService : Type 0 where
  pub state : WorkState

abbrev pub new_executor : ExecutorService
new_executor = record { state = stopped }

unfoldable pub transition : WorkState → Exec ExecutorService WorkState
transition target s =
    if allowed s.state target
    then (ok target, record s { state = target })
    else (err executor_error, s)

-- The public methods, and what each of them does.
pub data Method : Type 0 where
  pause resume start mark_running complete fail stop : Method

unfoldable pub target_of : Method → WorkState
target_of pause = paused
target_of resume = running
target_of start = starting
target_of mark_running = running
target_of complete = completed
target_of fail = failed
target_of stop = stopped

unfoldable pub call : Method → Exec ExecutorService WorkState
call method = transition (target_of method)

-- The executor after the calls of a history, the last call first. A caller that catches the error
-- of a call goes on with the executor it left.
unfoldable pub run : List Method → ExecutorService
run [] = new_executor
run (method ∷ history) = (call method (run history)).1

-- Each call leaves the state or moves it along the table.
call_moves :
    (method : Method) (s : ExecutorService)
    → ((call method s).1.state ≡ s.state)
      ⊎ ((allowed s.state (target_of method) ≡ true) × ((call method s).1.state ≡ target_of method))
unfolding call transition
call_moves method s = ground arith

into_completed : (s : WorkState) → allowed s completed ≡ true → s ≡ running
unfolding allowed
into_completed stopped h = ground arith
into_completed starting h = ground arith
into_completed running h = refl
into_completed paused h = ground arith
into_completed completed h = ground arith
into_completed failed h = ground arith

out_of_stopped : (method : Method) → method ≢ start → allowed stopped (target_of method) ≡ false
unfolding allowed target_of
out_of_stopped pause h = refl
out_of_stopped resume h = refl
out_of_stopped start h = absurd (h refl)
out_of_stopped mark_running h = refl
out_of_stopped complete h = refl
out_of_stopped fail h = refl
out_of_stopped stop h = refl

-- The executor is COMPLETED after a history of calls only if it was RUNNING after an earlier part.
pub completed_after_running :
    (history : List Method)
    → (run history).state ≡ completed
    → (later : List Method) × (earlier : List Method) × (history ≡ later ++ earlier)
      × ((run earlier).state ≡ running)
unfolding run
completed_after_running [] h = absurd (ground arith)
completed_after_running (method ∷ history) h = elim (call_moves method (run history)) [
  | inl same ↦
      let (later, earlier, e, r) = completed_after_running history (sym same ∙ h) in
      (method ∷ later, earlier, ap (◌∷◌ method) e, r)
  | inr (may, moved) ↦ (
    method ∷ [],
    history,
    refl,
    into_completed _
        (subst (λ (t : WorkState). allowed (run history).state t ≡ true) (sym moved ∙ h) may),
  )
]

-- Without a call of `start`, the executor stays STOPPED.
pub stopped_without_start :
    (history : List Method)
    → All (λ (m : Method). m ≢ start) history
    → (run history).state ≡ stopped
unfolding run
stopped_without_start [] a = refl
stopped_without_start (method ∷ history) (other, a) =
    let e : (run history).state ≡ stopped = stopped_without_start history a in
    elim (call_moves method (run history)) [
      | inl same ↦ same ∙ e
      | inr (may, moved) ↦ absurd (ground (arith, out_of_stopped method other))
    ]
