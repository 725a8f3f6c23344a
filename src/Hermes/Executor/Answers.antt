-- ===== src/Hermes/Executor/Answers.antt =====
-- hermes/executor.py: what `execute` answers, and what becomes of a revert.
use agentopia.Prelude.{
  ap, ◌∙◌, ◌≡◌, refl, ◌≢◌, String, Option, none, some, Bool, List, [], ◌∷◌, ◌<>◌,
}
use agentopia.Prelude.Json.{Json, null, str, dict, or_else}
use agentopia.Python.{Except, ok, raise, Exception, get, get_or}
use agentopia.Hermes.Platform.{FilePath, Platform, Host, Job, pure, lift, rescue, ◌>>=◌}
use agentopia.Hermes.Guards.{task_value}
use agentopia.Hermes.Executor.Memory.{text_for}
use agentopia.Hermes.Executor.Handlers.{handle, handle_file_revert}
use agentopia.Hermes.Executor.Envelope.{Outcome, envelope}
use agentopia.Hermes.Executor.{
  execute, outcome_of, run_supported, run_valid, supported, run_task, run_handler, failure_of,
}

-- A job that never returns a value.
record Never {A : Type 0} (m : Job A) : Type 0 where
  at : (h : Host) (a : A) → (m h).0 ≢ ok a

module _ {A : Type 0} where
  rescue-answers :
      (m : Job A) (answer : Exception → A) (h : Host) → (a : A) × ((rescue m answer h).0 ≡ ok a)
  unfolding rescue
  rescue-answers m answer h = go (m h).0 (m h).1
    where
      go :
          (r : Except A) (h' : Host)
          → (a : A) × ((rescue (λ (g : Host). (r, h')) answer h).0 ≡ ok a)
      go (ok a) h' = (a, refl)
      go (raise e) h' = (answer e, refl)

  rescue-Never :
      (m : Job A) (answer : Exception → A) (h : Host)
      → Never m
      → (e : Exception) × ((rescue m answer h).0 ≡ ok (answer e))
  unfolding rescue
  rescue-Never m answer h never = go (m h).0 (m h).1 (never.at h)
    where
      go :
          (r : Except A) (h' : Host)
          → ((a : A) → r ≢ ok a)
          → (e : Exception) × ((rescue (λ (g : Host). (r, h')) answer h).0 ≡ ok (answer e))
      go (ok a) h' ne = absurd (ne a refl)
      go (raise e) h' ne = (e, refl)

  Never-raise : (e : Exception) → Never (lift {A = A} (raise e))
  unfolding lift
  Never-raise e = record { at = λ h a same. cc }

module _ {A B : Type 0} where
  Never-first : {m : Job A} (f : A → Job B) → Never m → Never (m >>= f)
  unfolding ◌>>=◌
  Never-first {m} f never = record { at = λ h b. go (m h).0 (m h).1 h b (never.at h) }
    where
      go :
          (r : Except A) (h' h : Host) (b : B)
          → ((a : A) → r ≢ ok a)
          → (((λ (g : Host). (r, h')) >>= f) h).0 ≢ ok b
      go (ok a) h' h b ne same = ne a refl
      go (raise e) h' h b ne same = cc

  Never-later : (m : Job A) {f : A → Job B} → ((a : A) → Never (f a)) → Never (m >>= f)
  unfolding ◌>>=◌
  Never-later m {f} never = record { at = λ h b. go (m h).0 (m h).1 h b }
    where
      go : (r : Except A) (h' h : Host) (b : B) → (((λ (g : Host). (r, h')) >>= f) h).0 ≢ ok b
      go (ok a) h' h b same = (never a).at h' b same
      go (raise e) h' h b same = cc

  -- A check that does not raise is passed with its value.
  lift_step :
      (r : Except A) (f : A → Job B) (h : Host) {a : A} → r ≡ ok a → (lift r >>= f) h ≡ f a h
  unfolding lift ◌>>=◌
  lift_step r f h e = ap (λ (x : Except A). (lift x >>= f) h) e

  -- A step that answers is followed by what comes after it.
  answered :
      (m : Job A) (f : A → B) (h : Host) {a : A}
      → (m h).0 ≡ ok a
      → ((m >>= λ x. pure (f x)) h).0 ≡ ok (f a)
  unfolding ◌>>=◌ pure
  answered m f h {a} e = go (m h).0 (m h).1 e
    where
      go :
          (r : Except A) (h' : Host)
          → r ≡ ok a
          → (((λ (g : Host). (r, h')) >>= λ x. pure (f x)) h).0 ≡ ok (f a)
      go (ok b) h' same = let eq : b ≡ a = cc in ap (λ x. ok (f x)) eq
      go (raise x) h' same = absurd (cc)

module _ (env : Platform) (workspace : FilePath) (request : Json) where
  run_supported-answers :
      (task_type : Json) (preview : Bool) (h : Host) (o : Option String)
      → (x : Outcome) × ((run_supported env workspace request task_type preview o h).0 ≡ ok x)
  unfolding pure
  run_supported-answers task_type preview h none = (_, refl)
  run_supported-answers task_type preview h (some s) =
      rescue-answers (run_task env workspace request s preview) failure_of h

  run_valid-answers :
      (task_type : Json) (preview : Bool) (h : Host) (errors : List String)
      → (x : Outcome) × ((run_valid env workspace request task_type preview errors h).0 ≡ ok x)
  unfolding pure
  run_valid-answers task_type preview h [] =
      run_supported-answers task_type preview h (supported task_type)
  run_valid-answers task_type preview h (e ∷ es) = (_, refl)

  -- Where the request and its task and trace are dictionaries, `execute` returns the result dictionary
  -- of some outcome: no exception of a check, a handler or a limit leaves it.
  pub execute_answers :
      {task_type id trace traced : Json} (preview : Bool) (h : Host)
      → task_value request "type" null ≡ ok task_type
      → task_value request "id" null ≡ ok id
      → get_or request "trace" (dict []) ≡ ok trace
      → get trace "trace_id" ≡ ok traced
      → let task_id = or_else id (str "task_invalid") in
        let trace_id = or_else traced (str ("trace_" <> text_for env task_id)) in
        (o : Outcome) × ((execute env workspace request preview h).0
          ≡ ok (envelope env task_id trace_id o))
  unfolding execute outcome_of
  execute_answers {task_type} {id} {trace} {traced} preview h e1 e2 e3 e4 =
      let (o, done) = run_valid-answers task_type preview h (env.validate request) in
      (
        o,
        ap (λ x. x.0)
              (lift_step (task_value request "type" null) _ h e1
                ∙ lift_step (task_value request "id" null) _ h e2
                ∙ lift_step (get_or request "trace" (dict [])) _ h e3
                ∙ lift_step (get trace "trace_id") _ h e4)
            ∙ answered (run_valid env workspace request task_type preview (env.validate request)) _
                h done,
      )

  handle_file_revert-Never :
      (preview : Bool) → Never (handle_file_revert env workspace request preview)
  unfolding handle_file_revert
  handle_file_revert-Never preview = Never-later (lift _) λ path.
      Never-later (lift _)
        λ target. Never-later (lift _) λ previous. Never-later _ λ r. Never-first _ (Never-raise _)

  run_revert-Never : (preview : Bool) → Never (run_task env workspace request "file_revert" preview)
  unfolding run_task run_handler handle
  run_revert-Never preview = Never-later (lift _) λ _. Never-later _ λ memory.
      Never-later (lift _) λ limit.
        Never-later _ λ started. Never-first _ (Never-first _ (handle_file_revert-Never preview))

  -- A valid request of the type "file_revert" is always answered with a failure.
  pub revert_fails :
      (preview : Bool) (h : Host)
      → env.validate request ≡ []
      → (e : Exception) × ((outcome_of env workspace request (str "file_revert") preview h).0
          ≡ ok (failure_of e))
  unfolding outcome_of
  revert_fails preview h valid =
      let (e, done) =
        rescue-Never (run_task env workspace request "file_revert" preview) failure_of h
          (run_revert-Never preview) in
      (
        e,
        ap (λ errors. (run_valid env workspace request (str "file_revert") preview errors h).0)
              valid
            ∙ done,
      )
