-- ===== src/Paperclip/Http/Laws.antt =====
-- Who may see and change a task over HTTP.
use agentopia.Prelude.{
  ℕ, ◌≡◌, refl, ◌≢◌, ◌⊎◌, inl, inr, ap, sym, ◌∙◌, String, Option, none, some, Bool, true, false,
  not, ◌&&◌, List, [], ◌∷◌, ◌==◌, eq_iff, arith, Bool-cases, if◌then◌else◌,
}
use mathlib.Core.Path.{subst, fun_ext}
use agentopia.Prelude.Json.{Json, str, dict}
use agentopia.Python.{Except, ok, raise, Exception, exceeds}
use agentopia.Paperclip.Service.World.{World, Surroundings, Action, pure, lift, query, ◌>>=◌}
use agentopia.Paperclip.Service.Views.{TaskView, view_task}
use agentopia.Paperclip.Service.Results.{cancel_task}
use agentopia.Paperclip.Http.Inputs.{validate_strings}
use agentopia.Paperclip.Http.Answers.{
  Request, Answer, task, error, Config, ClientIdentity, Access, granted, denied, refusal,
  reason_error, require_client_auth, tenant_can_access_task,
}
use agentopia.Paperclip.Http.App.{
  admitted, own_task, for_owner, get_one_task, post_cancel, post_approve, reason_of, too_large,
  post_tasks, post_action, post_parts, post_route, post_read, post_body,
}

-- The request comes from a client with a key, and the task of the path exists and is of the client's
-- tenant, which has a name.
pub record IsOwner (cfg : Config) (req : Request) (id : String) (w : World) (v : TaskView)
    : Type 0 where
  pub who : ClientIdentity
  pub access : require_client_auth cfg req ≡ ok (granted who)
  pub found : view_task w.live id ≡ some v
  pub tenant : who.tenant_id ≡ some v.tenant_id
  pub named : v.tenant_id ≢ ""

tenant_can_access_task-lem :
    (who : ClientIdentity) (v : TaskView)
    → tenant_can_access_task who v ≡ true
    → (who.tenant_id ≡ some v.tenant_id) × (v.tenant_id ≢ "")
unfolding tenant_can_access_task
tenant_can_access_task-lem who v h = go who.tenant_id refl h
  where
    go :
        (t : Option String)
        → who.tenant_id ≡ t
        → (elim t [
          | none ↦ false
          | some tenant ↦ not (tenant == "") && (not (v.tenant_id == "") && tenant == v.tenant_id)
        ])
          ≡ true
        → (who.tenant_id ≡ some v.tenant_id) × (v.tenant_id ≢ "")
    go none e g = absurd (cc)
    go (some tenant) e g = (
      e ∙ ap some ((eq_iff tenant v.tenant_id).0 (ground arith)),
      λ empty. ground (arith, eq_iff v.tenant_id ""),
    )

-- A call that is refused: the answer is an error, or an exception, and nothing has changed.
abbrev IsRefused : World → Except Answer × World → Type 0
IsRefused w x =
    ((status : ℕ) × (code : String) × (message : String) × (details : Json) × (x
        ≡ (ok (error status code message details), w)))
    ⊎ ((e : Exception) × (x ≡ (raise e, w)))

refusal-error :
    (reason : Option String)
    → (status : ℕ) × (code : String) × (message : String) × (details : Json) × (refusal reason
        ≡ error status code message details)
refusal-error none = (_, _, _, _, refl)
refusal-error (some reason) = (_, _, _, _, refl)

abbrev forbidden : Answer
forbidden = reason_error 403 "forbidden" "Forbidden" "tenant_mismatch"

module _ (cfg : Config) (req : Request) (id : String) (k : TaskView → Action Answer)
    (w : World) where
  own_gate :
      (who : ClientIdentity)
      → require_client_auth cfg req ≡ ok (granted who)
      → (found : Option TaskView) → view_task w.live id ≡ found
      → IsRefused w (own_task who found k w)
        ⊎ ((v : TaskView) × IsOwner cfg req id w v × (own_task who found k w ≡ k v w))
  unfolding pure
  own_gate who access none e = inl (inl (_, _, _, _, refl))
  own_gate who access (some v) e = elim (Bool-cases (tenant_can_access_task who v)) [
    | inl mine ↦
        let (tenant, named) = tenant_can_access_task-lem who v mine in
        inr (
          v,
          record { who = who; access = access; found = e; tenant = tenant; named = named },
          ap (λ b. (if b then k v else pure forbidden) w) mine,
        )
    | inr foreign ↦ inl (
        inl (
          403,
          "forbidden",
          "Forbidden",
          dict (("reason", str "tenant_mismatch") ∷ []),
          ap (λ b. (if b then k v else pure forbidden) w) foreign,
        ))
  ]

  access_gate :
      (r : Except Access)
      → require_client_auth cfg req ≡ r
      → let x =
          (lift r >>= λ access.
          admitted access (λ who. query (λ t. view_task t id) >>= λ found. own_task who found k))
            w in
        IsRefused w x ⊎ ((v : TaskView) × IsOwner cfg req id w v × (x ≡ k v w))
  unfolding lift query ◌>>=◌ pure
  access_gate (raise e) h = inl (inr (e, refl))
  access_gate (ok (denied reason)) h =
      let (status, code, message, details, same) = refusal-error reason in
      inl (inl (status, code, message, details, ap (λ a. (ok a, w)) same))
  access_gate (ok (granted who)) h = own_gate who h (view_task w.live id) refl

  -- What is done for the owner of a task is done for its owner only; any other request is refused.
  IsOwner-gate :
      IsRefused w (for_owner cfg req id k w)
      ⊎ ((v : TaskView) × IsOwner cfg req id w v × (for_owner cfg req id k w ≡ k v w))
  IsOwner-gate = access_gate (require_client_auth cfg req) refl

-- A task that `GET /tasks/<id>` answers with is the client's own.
pub get_one_task-IsOwner :
    (cfg : Config) (req : Request) (id : String) (w : World) (v : TaskView)
    → (get_one_task cfg req id w).0 ≡ ok (task 200 (some v))
    → IsOwner cfg req id w v
unfolding get_one_task pure
get_one_task-IsOwner cfg req id w v h =
    elim (IsOwner-gate cfg req id (λ u. pure (task 200 (some u))) w) [
      | inl refused ↦ elim refused [
        | inl (status, code, message, details, same) ↦
            let other : ok (task 200 (some v)) ≡ ok (error status code message details) =
              sym h ∙ ap (λ x. x.0) same in
            absurd (cc)
        | inr (e, same) ↦
            let other : ok (task 200 (some v)) ≡ raise e = sym h ∙ ap (λ x. x.0) same in absurd (cc)
      ]
      | inr (u, owner, same) ↦
          let answers : ok (task 200 (some u)) ≡ ok (task 200 (some v)) =
            sym (ap (λ x. x.0) same) ∙ h in
          let views : u ≡ v = cc in subst (λ x. IsOwner cfg req id w x) views owner
    ]

-- `POST /tasks/<id>/cancel` changes nothing, but for the owner of the task.
pub post_cancel-IsOwner :
    (env : Surroundings) (cfg : Config) (req : Request) (id : String) (body : Json) (w : World)
    → ((post_cancel env cfg req id body w).1 ≡ w) ⊎ ((v : TaskView) × IsOwner cfg req id w v)
unfolding post_cancel
post_cancel-IsOwner env cfg req id body w =
    elim (IsOwner-gate cfg req id
      (λ v. cancel_task env id "client" (reason_of cfg body) >>= λ x. pure (task 200 x)) w) [
        | inl refused ↦ elim refused [
          | inl (status, code, message, details, same) ↦ inl (ap (λ x. x.1) same)
          | inr (e, same) ↦ inl (ap (λ x. x.1) same)
        ]
        | inr (u, owner, same) ↦ inr (u, owner)
      ]

abbrev pub with_authorization : Request → String → Request
with_authorization req text = record req { authorization = text }

post_route-approve :
    (env : Surroundings) (cfg : Config) (req : Request) (id text : String) (body : Json) (w : World)
    → (req.path == "/tasks") ≡ false
    → req.parts ≡ "tasks" ∷ id ∷ "approve" ∷ []
    → post_route env cfg (with_authorization req text) body w ≡ post_route env cfg req body w
unfolding post_route post_action post_approve
post_route-approve env cfg req id text body w other parts =
    ap
      (λ (x : Bool × List String).
        (if x.0
            then post_tasks env cfg (with_authorization req text) body
            else post_parts env cfg (with_authorization req text) body x.1)
          w)
      there
    ∙ sym (
        ap
          (λ (x : Bool × List String).
            (if x.0 then post_tasks env cfg req body else post_parts env cfg req body x.1) w)
          there)
  where
    there :
        ◌≡◌ {A = Bool × List String}
          (req.path == "/tasks", req.parts)
          (false, "tasks" ∷ id ∷ "approve" ∷ [])
    there = λ i. (other i, parts i)

-- `POST /tasks/<id>/approve` is answered, and changes the world, in the same way whatever key comes
-- with the request, or none.
pub approval_needs_no_key :
    (env : Surroundings) (cfg : Config) (req : Request) (id text : String) (w : World)
    → (req.path == "/tasks") ≡ false
    → req.parts ≡ "tasks" ∷ id ∷ "approve" ∷ []
    → post_body env cfg (with_authorization req text) w ≡ post_body env cfg req w
unfolding post_body post_read post_route post_action post_approve
approval_needs_no_key env cfg req id text w other parts =
    ap (λ (route : Json → World → Except Answer × World). posted route w)
      (fun_ext (λ body. fun_ext (λ v. post_route-approve env cfg req id text body v other parts)))
  where
    posted : (Json → Action Answer) → Action Answer
    posted route = lift req.content_length >>= λ length.
        if exceeds cfg.max_request_bytes length
        then pure (too_large env cfg req)
        else (lift req.body >>= λ body.
            lift (validate_strings cfg.show_number body "<root>") >>= λ _. route body)
