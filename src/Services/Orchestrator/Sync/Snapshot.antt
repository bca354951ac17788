-- ===== src/Services/Orchestrator/Sync/Snapshot.antt =====
-- The full synchronisation sends one snapshot.
use nightshift_opi.Prelude.{
  ℕ, ◌≡◌, refl, sym, ◌∙◌, Option, List, [], ◌∷◌, ◌++◌, map, Result, ok, err,
}
use mathlib.Core.Path.{subst}
use nightshift_opi.Prelude.Bytes.{Bytes}
use nightshift_opi.Prelude.Exec.{Exec, lift, done, continue, ◌>>=◌, ◌>>◌}
use nightshift_opi.Domain.Commands
use nightshift_opi.Services.Tasks.{Task}
use nightshift_opi.Services.Notices.{Notice}
use nightshift_opi.Services.Orchestrator.{Orchestrator, Environment}
use nightshift_opi.Services.Orchestrator.Payload
use nightshift_opi.Services.Orchestrator.Sync.{transmit, send_core_state, send_items, send_snapshot}

abbrev pub Frames : Type 0
Frames = List (ℕ × Result Bytes)

-- What the panel is to receive: the commands in their order, with payloads from one state.
unfoldable pub snapshot : List Task → Option Notice → Orchestrator → Frames
snapshot tasks shown o =
    (Commands.state_sync_begin, Payload.sync_begin o)
    ∷ (Commands.mode_set, Payload.mode o)
    ∷ (Commands.attention_set, Payload.attention o)
    ∷ (Commands.work_state_set, Payload.work_state o)
    ∷ (Commands.dashboard_set, Payload.dashboard o)
    ∷ (Commands.notice_show, Payload.notice shown o)
    ∷ (Commands.task_list_begin, Payload.list_begin tasks o)
    ∷ (map (λ (t : Task). (Commands.task_item, Payload.task t o)) tasks
        ++ (Commands.task_list_end, Payload.list_end o)
          ∷ (Commands.state_sync_end, Payload.sync_end o)
          ∷ [])

-- Sending frames in order, up to the first that cannot be encoded or is not answered.
unfoldable pub send_all : Environment → Frames → Exec Orchestrator Unit
send_all env [] = done
send_all env ((command, payload) ∷ frames) = do
  bytes ← lift payload
  env.send command bytes
  send_all env frames

-- Laws of the monad, at one state.
module _ {S : Type 0} where
  continue_eq :
      (n k : Exec S Unit) (o s : S) (r : Result Unit)
      → s ≡ o
      → n o ≡ k o
      → continue r (λ _. n) s ≡ continue r (λ _. k) s
  continue_eq n k o s (ok a) e h = subst (λ (x : S). n x ≡ k x) (sym e) h
  continue_eq n k o s (err x) e h = refl

  continue_assoc :
      (k n : Exec S Unit) (r : Result Unit) (s : S)
      → continue (continue r (λ _. k) s).0 (λ _. n) (continue r (λ _. k) s).1
        ≡ continue r (λ _. k >> n) s
  continue_assoc k n (ok a) s = refl
  continue_assoc k n (err e) s = refl

  then_assoc : (m k n : Exec S Unit) (o : S) → ((m >> k) >> n) o ≡ (m >> (k >> n)) o
  then_assoc m k n o = continue_assoc k n (m o).0 (m o).1

  continue-done : (r : Result Unit) (s : S) → continue r (λ _. done) s ≡ (r, s)
  continue-done (ok a) s = refl
  continue-done (err e) s = refl

module _ (env : Environment)
    (quiet : (command : ℕ) (payload : Bytes) (o : Orchestrator)
      → (env.send command payload o).1 ≡ o) where
  payload_step :
      (command : ℕ) (payload : Result Bytes) (n : Exec Orchestrator Unit) (frames : Frames)
      (o : Orchestrator)
      → n o ≡ send_all env frames o
      → (((lift payload >>= env.send command) >> n) o)
        ≡ send_all env ((command, payload) ∷ frames) o
  unfolding send_all
  payload_step command (ok bytes) n frames o h =
      continue_eq n (send_all env frames) o _ (env.send command bytes o).0 (quiet command bytes o) h
  payload_step command (err e) n frames o h = refl

  send_step :
      (command : ℕ) (f : Orchestrator → Result Bytes) (n : Exec Orchestrator Unit) (frames : Frames)
      (o : Orchestrator)
      → n o ≡ send_all env frames o
      → (transmit env command f >> n) o ≡ send_all env ((command, f o) ∷ frames) o
  unfolding transmit
  send_step command f n frames o h = payload_step command (f o) n frames o h

  send_last :
      (command : ℕ) (f : Orchestrator → Result Bytes) (o : Orchestrator)
      → transmit env command f o ≡ send_all env ((command, f o) ∷ []) o
  send_last command f o =
      sym (continue-done (transmit env command f o).0 (transmit env command f o).1)
      ∙ send_step command f done [] o (unfold send_all in refl)

  items_step :
      (tasks : List Task) (n : Exec Orchestrator Unit) (frames : Frames) (o : Orchestrator)
      → n o ≡ send_all env frames o
      → (send_items env tasks >> n) o
        ≡ send_all env
            (map (λ (t : Task). (Commands.task_item, Payload.task t o)) tasks ++ frames)
            o
  unfolding send_items
  items_step [] n frames o h = h
  items_step (t ∷ tasks) n frames o h =
      then_assoc (transmit env Commands.task_item (Payload.task t)) (send_items env tasks) n o
      ∙ send_step Commands.task_item (Payload.task t) (send_items env tasks >> n) _ o
          (items_step tasks n frames o h)

  core_step :
      (n : Exec Orchestrator Unit) (frames : Frames) (o : Orchestrator)
      → n o ≡ send_all env frames o
      → (send_core_state env >> n) o
        ≡ send_all env
            ((Commands.mode_set, Payload.mode o)
              ∷ (Commands.attention_set, Payload.attention o)
              ∷ (Commands.work_state_set, Payload.work_state o)
              ∷ frames)
            o
  unfolding send_core_state
  core_step n frames o h =
      then_assoc (transmit env Commands.mode_set Payload.mode) _ n o
      ∙ send_step Commands.mode_set Payload.mode _ _ o (
          then_assoc (transmit env Commands.attention_set Payload.attention) _ n o
          ∙ send_step Commands.attention_set Payload.attention _ _ o
              (send_step Commands.work_state_set Payload.work_state n frames o h))

  -- While nothing else runs during the waits, the synchronisation is the sending of one snapshot:
  -- its frames in order, all of the same state, up to the first that fails.
  pub send_snapshot-snapshot :
      (tasks : List Task) (shown : Option Notice) (o : Orchestrator)
      → send_snapshot env tasks shown o ≡ send_all env (snapshot tasks shown o) o
  unfolding send_snapshot snapshot
  send_snapshot-snapshot tasks shown o = send_step _ Payload.sync_begin _ _ o (
      core_step _ _ o (
        send_step _ Payload.dashboard _ _ o (
          send_step _ (Payload.notice shown) _ _ o (
            send_step _ (Payload.list_begin tasks) _ _ o (
              items_step tasks _ _ o
                (send_step _ Payload.list_end _ _ o (send_last _ Payload.sync_end o)))))))
