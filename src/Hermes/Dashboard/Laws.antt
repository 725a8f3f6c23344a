-- ===== src/Hermes/Dashboard/Laws.antt =====
-- What the operator's queues show.
use agentopia.Prelude.{
  ℕ, zero, suc, ◌≤◌, ◌≡◌, refl, ap, sym, ◌∙◌, ◌==◌, true, false, if◌then◌else◌, String, Option,
  none, some, Bool, List, [], ◌∷◌, arith, length, map, select,
}
use agentopia.Prelude.Table.{Table, Every}
use agentopia.Prelude.Json.{Json, Items, null, arr, items, of_list}
use agentopia.Prelude.Texts.{lower}
use agentopia.Python.{ok, bind-ok, get}
use agentopia.Hermes.Platform.{Platform}
use agentopia.Hermes.Executor.Envelope.{Outcome, succeeded, failed, envelope}
use agentopia.Hermes.Redaction.{is_sensitive_key, redact_value}
use agentopia.Hermes.Runs.{read_run}
use agentopia.Hermes.Runs.Laws.{stored}
use agentopia.Hermes.Dashboard.{
  Entry, entry_of, entries, take, queue, is_preview, is_blocked, is_completed_revert, is_mismatch,
  state_of, current_state, hashable, build_operator_queue_state,
}

pub envelope-entry :
    (env : Platform) (at : String) (current id trace : Json) (o : Outcome)
    → entry_of current (stored at (envelope env id trace o)) ≡ ok []
unfolding entry_of read_run envelope redact_value is_sensitive_key lower
envelope-entry env at current id trace (failed code message) = refl
envelope-entry env at current id trace (succeeded p none) = refl
envelope-entry env at current id trace (succeeded p (some m)) = refl

-- A file that gives no entry.
abbrev pub NoEntry : Option Json → Type 0
NoEntry none = Unit
NoEntry (some data') = (current : Json) → entry_of current data' ≡ ok []

pub entries_none :
    (current : Json) (runs : Table (Option Json))
    → Every NoEntry runs
    → entries current runs ≡ ok []
unfolding entries
entries_none current [] h = refl
entries_none current ((name, none) ∷ files) h = entries_none current files h.1
entries_none current ((name, some data') ∷ files) h =
    rw (entries_none current files h.1, h.0 current) refl

ok_inj : {A : Type 0} {a b : A} → ok a ≡ ok b → a ≡ b
ok_inj e = cc

items-of_list : (js : List Json) → items (of_list js) ≡ js
items-of_list [] = refl
items-of_list (j ∷ js) = ap (λ ks. j ∷ ks) (items-of_list js)

length-take : (n : ℕ) {A : Type 0} (xs : List A) → length (take n xs) ≤ n
length-take zero xs = omega arith
length-take (suc n) [] = omega arith
length-take (suc n) (x ∷ xs) = omega (arith, length-take n xs)

length-map : {A B : Type 0} (f : A → B) (xs : List A) → length (map f xs) ≡ length xs
length-map f [] = refl
length-map f (x ∷ xs) = ap suc (length-map f xs)

queue-length :
    (wanted : Entry → Bool) (es : List Entry) (js : Items)
    → queue wanted es ≡ arr js
    → length (items js) ≤ 10
queue-length wanted es js e =
    let shown = map (λ x. x.json) (take 10 (select wanted es)) in
    let same : items js ≡ shown = ap elements_of (sym e) ∙ items-of_list shown in
    let counted = ap length same ∙ length-map (λ x. x.json) (take 10 (select wanted es)) in
    omega (arith, counted, length-take 10 (select wanted es))
  where
    elements_of : Json → List Json
    elements_of (arr ks) = items ks
    elements_of _ = []

-- A field of the state is a queue or is not there.
state-length :
    (es : List Entry) (key : String) (js : Items)
    → get (state_of es) key ≡ ok (arr js)
    → length (items js) ≤ 10
state-length es key js e =
    go ("pending_previews" == key) ("blocked_actions" == key) ("completed_reverts" == key)
      ("approval_mismatches" == key) e
  where
    found : Bool → Bool → Bool → Bool → Option Json
    found a b c f =
        if a
        then some (queue is_preview es)
        else if b
        then some (queue is_blocked es)
        else if c
        then some (queue is_completed_revert es)
        else if f
        then some (queue is_mismatch es)
        else none

    go :
        (a b c f : Bool)
        → (elim (found a b c f) [ none ↦ ok null | some v ↦ ok v ]) ≡ ok (arr js)
        → length (items js) ≤ 10
    go true b c f e = queue-length is_preview es js (ok_inj e)
    go false true c f e = queue-length is_blocked es js (ok_inj e)
    go false false true f e = queue-length is_completed_revert es js (ok_inj e)
    go false false false true e = queue-length is_mismatch es js (ok_inj e)
    go false false false false e = absurd (cc)

-- No queue of the operator's dashboard shows more than ten runs, however many there are.
pub dashboard_queues_are_short :
    (runs : Table (Option Json)) (approvals : Option (Option Json)) (state : Json) (key : String)
    (js : Items)
    → build_operator_queue_state runs approvals ≡ ok state
    → get state key ≡ ok (arr js)
    → length (items js) ≤ 10
unfolding build_operator_queue_state
dashboard_queues_are_short runs approvals state key js e shows =
    let (es, e1, r1) = bind-ok (entries (current_state approvals) runs) _ e in
    let (u, e2, r2) = bind-ok (hashable es) _ r1 in
    let same : state_of es ≡ state = ok_inj r2 in
    state-length es key js (ap (λ s. get s key) same ∙ shows)
