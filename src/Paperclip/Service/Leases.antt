-- ===== src/Paperclip/Service/Leases.antt =====
-- The lease on a queue item, and the claims of other workers.
use agentopia.Prelude.{
  ℕ, ◌≡◌, refl, ◌∙◌, ap, ◌≢◌, ◌<◌, inl, inr, String, Option, none, some, true, false, arith,
  Option-cases, Bool-cases, eq_iff, ◌<>◌,
}
use agentopia.Prelude.Table.{update, lookup-update_self}
use agentopia.Python.{ok, raise, key_error, value_error}
use agentopia.Paperclip.Db
use agentopia.Paperclip.Db.{Tables, QueueItem, get_queue_item}
use agentopia.Paperclip.Service.World.{World, Surroundings, whole_seconds, add_seconds, actions}
use agentopia.Paperclip.Service.Views.{TaskView}
use agentopia.Paperclip.Service.Queue.{
  claim_queue_item, require_item, get_view, held_by_other, holder,
}

abbrev lease : String → ℕ → ℕ → QueueItem → QueueItem
lease worker expires at q = record q {
  worker_id = some worker;
  lease_expires_at = some expires;
  updated_at = at;
}

module _ (env : Surroundings) (id : String) where
  abbrev lease_end : ℕ → ℕ
  lease_end now = whole_seconds (add_seconds now env.settings.queue_lease_seconds)

  claim_free :
      (worker : String) (now : ℕ) (w : World) (q : QueueItem)
      → get_queue_item id w.live ≡ some q
      → held_by_other q worker now ≡ false
      → (claim_queue_item env id worker (some now) w).1.live.queue
        ≡ update id (lease worker (lease_end now) (whole_seconds now)) w.live.queue
  unfolding claim_queue_item require_item get_queue_item get_view actions Db.claim_queue_item
      Db.add_audit_event
  claim_free worker now w q h free = ground arith

  claim_held :
      (worker : String) (now : ℕ) (w : World) (q : QueueItem)
      → get_queue_item id w.live ≡ some q
      → held_by_other q worker now ≡ true
      → claim_queue_item env id worker (some now) w
        ≡ (raise (value_error ("queue item already leased by " <> holder q)), w)
  unfolding claim_queue_item require_item get_queue_item get_view actions
  claim_held worker now w q h held = ground arith

  claim_unknown :
      (worker : String) (now : ℕ) (w : World)
      → get_queue_item id w.live ≡ none
      → claim_queue_item env id worker (some now) w ≡ (raise (key_error id), w)
  unfolding claim_queue_item require_item get_queue_item get_view actions
  claim_unknown worker now w h = ground arith

  -- The item after a claim that succeeded.
  claimed_item :
      (worker : String) (now : ℕ) (w : World) {v : Option TaskView}
      → (claim_queue_item env id worker (some now) w).0 ≡ ok v
      → (q : QueueItem) × (get_queue_item id (claim_queue_item env id worker (some now) w).1.live
          ≡ some q)
        × (q.worker_id ≡ some worker)
        × (q.lease_expires_at ≡ some (lease_end now))
  unfolding get_queue_item
  claimed_item worker now w e = elim (Option-cases (get_queue_item id w.live)) [
    | inl missing ↦ absurd (ground (arith, claim_unknown worker now w missing))
    | inr (q, h) ↦ elim (Bool-cases (held_by_other q worker now)) [
      | inl held ↦ absurd (ground (arith, claim_held worker now w q h held))
      | inr free ↦ (
        lease worker (lease_end now) (whole_seconds now) q,
        rw (claim_free worker now w q h free) (lookup-update_self id _ w.live.queue h),
        refl,
        refl,
      )
    ]
  ]

  held_by_worker :
      (worker other : String) (now deadline : ℕ) (q : QueueItem)
      → q.worker_id ≡ some worker
      → q.lease_expires_at ≡ some deadline
      → worker ≢ ""
      → worker ≢ other
      → now < deadline
      → held_by_other q other now ≡ true
  held_by_worker worker other now deadline q hw hl named ne lt =
      ground (arith, eq_iff worker "", eq_iff worker other)

  -- Once a named worker has claimed an item, a claim of another worker before the end of the lease
  -- raises ValueError and changes nothing.
  pub claim_excludes :
      (worker other : String) (now later : ℕ) (w : World) {v : Option TaskView}
      → (claim_queue_item env id worker (some now) w).0 ≡ ok v
      → worker ≢ ""
      → worker ≢ other
      → later < whole_seconds (add_seconds now env.settings.queue_lease_seconds)
      → let w' = (claim_queue_item env id worker (some now) w).1 in
        claim_queue_item env id other (some later) w'
        ≡ (raise (value_error ("queue item already leased by " <> worker)), w')
  claim_excludes worker other now later w claimed named ne lt =
      let (q, h, hw, hl) = claimed_item worker now w claimed in
      let w' = (claim_queue_item env id worker (some now) w).1 in
      let held = held_by_worker worker other later (lease_end now) q hw hl named ne lt in
      claim_held other later w' q h held
      ∙ ap (λ c. (raise (value_error ("queue item already leased by " <> name c)), w')) hw
    where
      name : Option String → String
      name c = elim c [ none ↦ "" | some current ↦ current ]
