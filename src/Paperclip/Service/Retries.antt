-- ===== src/Paperclip/Service/Retries.antt =====
-- A failed attempt: it is tried again after a doubling delay, up to the item's number of attempts,
-- and then given up.
use agentopia.Prelude.{
  ℕ, ◌+◌, ◌-◌, ◌*◌, ◌^◌, ◌<◌, ◌≤◌, ◌≡◌, refl, String, Option, none, some, true, false, [], ◌∷◌,
  arith, ◌∙◌, ap,
}
use agentopia.Prelude.Table.{lookup, update, lookup-update_self}
use agentopia.Prelude.Json.{Json, dict, str, num}
use agentopia.Python.{Except, raise, Exception}
use agentopia.Paperclip.StateMachine.{State, can_transition}
use agentopia.Paperclip.Db
use agentopia.Paperclip.Db.{
  Tables, TaskRow, QueueItem, QueueStatus, get_task, get_queue_item, set_state, same_status,
}
use agentopia.Paperclip.Service.World.{
  World, Surroundings, Action, actions, execute, ◌>>◌, whole_seconds, add_seconds,
}
use agentopia.Paperclip.Service.Views.{TaskView}
use agentopia.Paperclip.Service.Queue.{
  dispatch_task, process_queue, start_attempt, attempt, claim_for, handle_failure, dead_letter,
  bury, schedule_retry, backoff_seconds, transition_task, require_item, get_view,
  is_scheduled_later,
}
use agentopia.Paperclip.Service.Establishes.{bind_step}
use agentopia.Paperclip.Service.Transitions.{
  moved, transition_task_allowed, transition_writes-tasks, transition_writes-queue,
}
use agentopia.Paperclip.Service.Attempts.{
  started, run_task_live, dispatch_task_queued, started_item, started_task,
}

can_fail : (s : State) → s ≡ State.running → can_transition s State.failed ≡ true
unfolding can_transition
can_fail s e = ground arith

module _ (env : Surroundings) (id : String) where
  -- The item and the task after a failure that leaves attempts over.
  pub record IsRetried (q : QueueItem) (now : ℕ) (e : Exception) (t : Tables) : Type 0 where
    pub item : QueueItem
    pub found : get_queue_item id t ≡ some item
    pub status : item.status ≡ QueueStatus.queued
    pub attempts : item.attempt_count ≡ q.attempt_count + 1
    pub next :
        item.next_attempt_at
        ≡ some (
            whole_seconds
              (now + env.settings.queue_backoff_seconds * 2 ^ q.attempt_count * 1_000_000))
    pub error : item.last_error ≡ some e.message
    pub task : TaskRow
    pub known : get_task id t ≡ some task
    pub state : task.state ≡ State.queued

  -- The item and the task after the last attempt failed.
  pub record IsGivenUp (q : QueueItem) (e : Exception) (t : Tables) : Type 0 where
    pub item : QueueItem
    pub found : get_queue_item id t ≡ some item
    pub status : item.status ≡ QueueStatus.dead_letter
    pub attempts : item.attempt_count ≡ q.attempt_count + 1
    pub error : item.last_error ≡ some e.message
    pub task : TaskRow
    pub known : get_task id t ≡ some task
    pub state : task.state ≡ State.failed

  abbrev next_attempt : ℕ → ℕ → ℕ
  next_attempt now attempts = whole_seconds (add_seconds now (backoff_seconds env attempts))

  abbrev retry_item : ℕ → ℕ → String → ℕ → QueueItem → QueueItem
  retry_item attempts next error at q = record q {
    status = QueueStatus.queued;
    attempt_count = attempts;
    next_attempt_at = some next;
    last_error = some error;
    updated_at = at;
  }

  abbrev dead_item : ℕ → String → ℕ → QueueItem → QueueItem
  dead_item attempts error at q = record q {
    status = QueueStatus.dead_letter;
    attempt_count = attempts;
    last_error = some error;
    updated_at = at;
  }

  schedule_retry_lem :
      (n now : ℕ) (error : String) (w : World)
      → ((schedule_retry env id n error now w).1.live.queue
          ≡ update id (retry_item n (next_attempt now n) error (whole_seconds now)) w.live.queue)
        × ((schedule_retry env id n error now w).1.live.tasks
            ≡ update id
                (set_state State.queued (whole_seconds (env.clock w.ticks)) none)
                w.live.tasks)
  unfolding schedule_retry get_view actions Db.update_task_state Db.mark_queue_retry
      Db.add_audit_event
  schedule_retry_lem n now error w = (refl, refl)

  retried :
      (q q1 : QueueItem) (r1 : TaskRow) (now : ℕ) (e : Exception) (w : World)
      → get_queue_item id w.live ≡ some q1
      → get_task id w.live ≡ some r1
      → IsRetried q now e (schedule_retry env id (q.attempt_count + 1) e.message now w).1.live
  unfolding get_queue_item get_task backoff_seconds
  retried q q1 r1 now e w h k =
      let n : ℕ = q.attempt_count + 1 in
      let (queue, tasks) = schedule_retry_lem n now e.message w in
      record {
        item = retry_item n (next_attempt now n) e.message (whole_seconds now) q1;
        found = ap (lookup id) queue ∙ lookup-update_self id _ w.live.queue h;
        status = refl;
        attempts = refl;
        next =
            ap
              (λ (k : ℕ).
                some (whole_seconds (now + env.settings.queue_backoff_seconds * 2 ^ k * 1_000_000)))
              (let same : q.attempt_count + 1 - 1 ≡ q.attempt_count = omega arith in same);
        error = refl;
        task = set_state State.queued (whole_seconds (env.clock w.ticks)) none r1;
        known = ap (lookup id) tasks ∙ lookup-update_self id _ w.live.tasks k;
        state = refl;
      }

  abbrev last_words : String → Json
  last_words error = dict (("reason", str "dead_letter") ∷ ("error", str error) ∷ [])

  note_dead_letter : ℕ → String → ℕ → Action (Option TaskView)
  note_dead_letter n error at = do
    execute (
        Db.add_audit_event id "task_dead_lettered" "paperclip"
          (dict (("attempt_count", num n) ∷ ("error", str error) ∷ [])) at)
    get_view id

  note_dead_letter_lem :
      (n : ℕ) (error : String) (at : ℕ) (w : World)
      → ((note_dead_letter n error at w).1.live.queue ≡ w.live.queue)
        × ((note_dead_letter n error at w).1.live.tasks ≡ w.live.tasks)
  unfolding note_dead_letter get_view actions Db.add_audit_event
  note_dead_letter_lem n error at w = (refl, refl)

  bury-moved :
      (n : ℕ) (error : String) (at : ℕ) (w : World) (r : TaskRow)
      → get_task id w.live ≡ some r
      → r.state ≡ State.running
      → bury env id n error at w
        ≡ note_dead_letter n error at
            (moved env id r.state State.failed "paperclip" (last_words error) w)
  unfolding bury note_dead_letter
  bury-moved n error at w r h running =
      bind_step (transition_task env id State.failed "paperclip" (last_words error))
        (λ _. note_dead_letter n error at) w
        (transition_task_allowed env id State.failed "paperclip" (last_words error) w h
          (can_fail r.state running))

  dead_letter_lem :
      (n : ℕ) (error : String) (at : ℕ) (w : World) (r : TaskRow)
      → get_task id w.live ≡ some r
      → r.state ≡ State.running
      → ((dead_letter env id n error at w).1.live.queue
          ≡ update id (dead_item n error at) w.live.queue)
        × ((dead_letter env id n error at w).1.live.tasks
            ≡ update id
                (set_state State.failed (whole_seconds (env.clock w.ticks)) none)
                w.live.tasks)
  unfolding dead_letter actions Db.mark_queue_dead_letter get_task
  dead_letter_lem n error at w r h running =
      let w' : World = record w { live = Db.mark_queue_dead_letter id n error at w.live } in
      let w'' : World = moved env id r.state State.failed "paperclip" (last_words error) w' in
      let (queue, tasks) = note_dead_letter_lem n error at w'' in
      let same = bury-moved n error at w' r h running in
      (
        ap (λ (p : Except (Option TaskView) × World). p.1.live.queue) same
            ∙ queue
            ∙ transition_writes-queue id r.state State.failed "paperclip" (last_words error)
                (whole_seconds (env.clock w.ticks)) w'.live,
        ap (λ (p : Except (Option TaskView) × World). p.1.live.tasks) same
            ∙ tasks
            ∙ transition_writes-tasks id r.state State.failed "paperclip" (last_words error)
                (whole_seconds (env.clock w.ticks)) w'.live,
      )

  given_up :
      (q q1 : QueueItem) (r1 : TaskRow) (at : ℕ) (e : Exception) (w : World)
      → get_queue_item id w.live ≡ some q1
      → get_task id w.live ≡ some r1
      → r1.state ≡ State.running
      → IsGivenUp q e (dead_letter env id (q.attempt_count + 1) e.message at w).1.live
  unfolding get_queue_item get_task
  given_up q q1 r1 at e w h k running =
      let n : ℕ = q.attempt_count + 1 in
      let (queue, tasks) = dead_letter_lem n e.message at w r1 k running in
      record {
        item = dead_item n e.message at q1;
        found = ap (lookup id) queue ∙ lookup-update_self id _ w.live.queue h;
        status = refl;
        attempts = refl;
        error = refl;
        task = set_state State.failed (whole_seconds (env.clock w.ticks)) none r1;
        known = ap (lookup id) tasks ∙ lookup-update_self id _ w.live.tasks k;
        state = refl;
      }

  process_queue_failed :
      (q : QueueItem) (now : ℕ) (e : Exception) (w w1 : World)
      → get_queue_item id w.live ≡ some q
      → q.status ≡ QueueStatus.queued
      → is_scheduled_later q now ≡ false
      → dispatch_task env id q.correlation_id none w ≡ (raise e, w1)
      → process_queue env id (some now) none w ≡ handle_failure env id q now e w1
  unfolding process_queue start_attempt attempt claim_for require_item actions
  process_queue_failed q now e w w1 h queued due failed = ground arith

  handle_retry :
      (q : QueueItem) (now : ℕ) (e : Exception) (w : World)
      → q.attempt_count + 1 < q.max_attempts
      → handle_failure env id q now e w
        ≡ schedule_retry env id (q.attempt_count + 1) e.message now w
  unfolding handle_failure
  handle_retry q now e w few = ground arith

  handle_last :
      (q : QueueItem) (now : ℕ) (e : Exception) (w : World)
      → q.max_attempts ≤ q.attempt_count + 1
      → handle_failure env id q now e w
        ≡ dead_letter env id (q.attempt_count + 1) e.message (whole_seconds now) w
  unfolding handle_failure
  handle_last q now e w many = ground arith

  pub Outcome : QueueItem → ℕ → Exception → Tables → Type 0
  Outcome q now e t =
      (q.attempt_count + 1 < q.max_attempts → IsRetried q now e t)
      × (q.max_attempts ≤ q.attempt_count + 1 → IsGivenUp q e t)

-- A failed attempt.
pub failed_attempt :
    (env : Surroundings) (id : String) (q : QueueItem) (task : TaskRow) (now : ℕ) (e : Exception)
    (w : World)
    → get_queue_item id w.live ≡ some q
    → q.status ≡ QueueStatus.queued
    → is_scheduled_later q now ≡ false
    → get_task id w.live ≡ some task
    → task.state ≡ State.queued
    → (dispatch_task env id q.correlation_id none w).0 ≡ raise e
    → Outcome env id q now e (process_queue env id (some now) none w).1.live
unfolding Outcome
failed_attempt env id q task now e w h queued due k ready failed =
    let w1 : World = (dispatch_task env id q.correlation_id none w).1 in
    let live : w1.live ≡ started env id task w =
      ap (λ (p : Except (Option TaskView) × World). p.1.live)
        (dispatch_task_queued env id task q.correlation_id w k ready)
      ∙ run_task_live env id task q.correlation_id w k ready in
    let (q1, found) = started_item env id task w h in
    let (r1, known, running) = started_task env id task w k in
    let found1 : get_queue_item id w1.live ≡ some q1 = ap (get_queue_item id) live ∙ found in
    let known1 : get_task id w1.live ≡ some r1 = ap (get_task id) live ∙ known in
    let run = process_queue_failed env id q now e w w1 h queued due (ap (λ r. (r, w1)) failed) in
    (
      λ few.
          rw (run ∙ handle_retry env id q now e w1 few)
            (retried env id q q1 r1 now e w1 found1 known1),
      λ many.
          rw (run ∙ handle_last env id q now e w1 many)
            (given_up env id q q1 r1 (whole_seconds now) e w1 found1 known1 running),
    )
