-- ===== src/Hermes/Http/Silence/Visits.antt =====
-- hermes/app.py: any sequence of requests to the process, one after the other.
use agentopia.Prelude.{◌≡◌, refl, ℕ, Option, Bool, true, false, List, [], ◌∷◌, if◌then◌else◌}
use agentopia.Prelude.Table.{Table, Every}
use agentopia.Prelude.Json.{Json, arr, nil, dict, truthy}
use agentopia.Python.{Except, ok}
use agentopia.Paperclip.Http.RateLimit.{allow}
use agentopia.Hermes.Runs.{
  apply_candidate, revert_candidate, resolve_issue_apply_candidates,
  resolve_issue_revert_candidates,
}
use agentopia.Hermes.Runs.Laws.{resolve_none}
use agentopia.Hermes.Dashboard.{build_operator_queue_state, hashable, current_state}
use agentopia.Hermes.Dashboard.Laws.{entries_none}
use agentopia.Hermes.Station.{Station, Deployment}
use agentopia.Hermes.Http.Answers.{Request, Answer, Config}
use agentopia.Hermes.Http.{post_admitted, rate_limited, do_post, do_get}
use agentopia.Hermes.Http.Silence.{IsMute, Silent}
use agentopia.Hermes.Http.Silence.Routes.{post_admitted-Keeps, do_get-Keeps}

-- A POST with its time in seconds, or a GET.
pub data Visit : Type 0 where
  posted : Request → ℕ → Visit
  got : Request → Visit

-- The four queues, empty.
abbrev pub empty_queues : Json
empty_queues = dict (
    ("pending_previews", arr nil)
    ∷ ("blocked_actions", arr nil)
    ∷ ("completed_reverts", arr nil)
    ∷ ("approval_mismatches", arr nil)
    ∷ [])

-- What a table of mute runs comes to.
Every-map {ℓ κ μ} :
    {A : Type ℓ} {P : A → Type κ} {Q : A → Type μ} (f : (a : A) → P a → Q a) (t : Table A)
    → Every P t
    → Every Q t
Every-map f [] h = tt
Every-map f ((name, a) ∷ t) h = (f a h.0, Every-map f t h.1)

either_way {ℓ} : {A : Type ℓ} {a : A} (b : Bool) → (if b then a else a) ≡ a
either_way true = refl
either_way false = refl

no_candidates :
    (issue_id : Json) (runs : Table (Option Json))
    → Every IsMute runs
    → resolve_issue_apply_candidates runs issue_id ≡ ok []
unfolding resolve_issue_apply_candidates
no_candidates issue_id runs h =
    rw (resolve_none (apply_candidate issue_id) runs (Every-map (λ file m. m.0 issue_id) runs h))
      (either_way (truthy issue_id))

no_reverts :
    (issue_id : Json) (runs : Table (Option Json))
    → Every IsMute runs
    → resolve_issue_revert_candidates runs issue_id ≡ ok []
unfolding resolve_issue_revert_candidates
no_reverts issue_id runs h =
    rw (resolve_none (revert_candidate issue_id) runs (Every-map (λ file m. m.1 issue_id) runs h))
      (either_way (truthy issue_id))

no_entries :
    (approvals : Option (Option Json)) (runs : Table (Option Json))
    → Every IsMute runs
    → build_operator_queue_state runs approvals ≡ ok empty_queues
unfolding build_operator_queue_state hashable
no_entries approvals runs h =
    rw (entries_none (current_state approvals) runs (Every-map (λ file m. m.2) runs h)) refl

module _ (d : Deployment) (cfg : Config) where
  unfoldable pub visit : Visit → Station × Table (List ℕ) → Station × Table (List ℕ)
  visit (posted req now) (s, buckets) = (do_post d cfg req now buckets s).1
  visit (got req) (s, buckets) = ((do_get d cfg req s).1, buckets)

  unfoldable pub after : List Visit → Station × Table (List ℕ) → Station × Table (List ℕ)
  after [] p = p
  after (v ∷ vs) p = after vs (visit v p)

  abbrev IsSilent : Station → Type 0
  IsSilent s = Silent s

  visit-IsSilent :
      (v : Visit) (p : Station × Table (List ℕ)) → IsSilent p.0 → IsSilent (visit v p).0
  unfolding visit do_post
  visit-IsSilent (posted req now) (s, buckets) h =
      let (free, buckets') =
        allow cfg.rate_limit_count cfg.rate_limit_window now req.client_ip buckets in
      answered free buckets'
    where
      answered :
          (free : Bool) (rest : Table (List ℕ))
          → IsSilent (
              let p : Except Answer × (Station × Table (List ℕ)) =
                if free
                then ((post_admitted d cfg req s).0, ((post_admitted d cfg req s).1, rest))
                else (ok (rate_limited d cfg), (s, rest)) in
              p.1.0)
      answered true rest = (post_admitted-Keeps d cfg req).at s h
      answered false rest = h
  visit-IsSilent (got req) (s, buckets) h = (do_get-Keeps d cfg req).at s h

  after-IsSilent :
      (vs : List Visit) (p : Station × Table (List ℕ)) → IsSilent p.0 → IsSilent (after vs p).0
  unfolding after
  after-IsSilent [] p h = h
  after-IsSilent (v ∷ vs) p h = after-IsSilent vs (visit v p) (visit-IsSilent v p h)

  -- After any visits, in any order, to a process of whose executor there is no run yet and that sent
  -- nothing, where no task, command or process writes to var/hermes itself (the stores are kept apart
  -- from the files of the executor's host): nothing was sent to Paperclip, no run is
  -- offered at any issue, neither to be applied nor to be reverted, and the four queues of the
  -- dashboard are empty, whatever the approval states.
  pub silence :
      (vs : List Visit) (s : Station) (buckets : Table (List ℕ))
      → s.store.runs ≡ []
      → s.requests ≡ []
      → (((after vs (s, buckets)).0.requests ≡ [])
          × ((issue_id : Json)
              → (resolve_issue_apply_candidates (after vs (s, buckets)).0.store.runs issue_id
                  ≡ ok [])
                × (resolve_issue_revert_candidates (after vs (s, buckets)).0.store.runs issue_id
                    ≡ ok []))
          × ((approvals : Option (Option Json))
              → build_operator_queue_state (after vs (s, buckets)).0.store.runs approvals
                ≡ ok empty_queues))
  silence vs s buckets e e' =
      let start : IsSilent s = (rw e tt, e') in
      let (mute, sent) = after-IsSilent vs (s, buckets) start in
      (
        sent,
        λ issue_id. (no_candidates issue_id _ mute, no_reverts issue_id _ mute),
        λ approvals. no_entries approvals _ mute,
      )
