-- ===== src/Hermes/Runs/Candidates.antt =====
-- Where the candidates of an issue come from.
use agentopia.Prelude.{
  ◌≡◌, refl, ap, ◌∙◌, String, Option, none, some, Bool, true, false, List, [], ◌∷◌, ◌++◌, All,
  if◌then◌else◌,
}
use mathlib.Core.Path.{subst}
use agentopia.Prelude.Table.{Table}
use agentopia.Prelude.Equality.{same}
use agentopia.Prelude.Json.{Json, str, truthy}
use agentopia.Python.{Except, ok, raise, get, is_text-eq, bind-ok}
use agentopia.Hermes.Runs.{
  Run, part, read_run, has_text, is_of_issue, and_then, is_apply_run, apply_item, one_item,
  apply_candidate, resolve, resolve_issue_apply_candidates,
}

-- A file of a table that is read, and of which something is so.
pub data Somewhere (P : Json → Type 0) : Table (Option Json) → Type 0 where
  here :
      {name : String} {found : Json} {files : Table (Option Json)}
      → P found
      → Somewhere P ((name, some found) ∷ files)
  there :
      {file : String × Option Json} {files : Table (Option Json)}
      → Somewhere P files
      → Somewhere P (file ∷ files)

-- The stored run of a repo_write of the issue that succeeded as a preview, and what is offered of it.
pub record IsPreviewOf (issue_id found item : Json) : Type 0 where
  pub run : Run
  pub repo_write : Json
  pub issue : Json
  pub preview : Json
  pub is_read : read_run found ≡ ok run
  pub has_write : part run.metadata "repo_write" ≡ ok repo_write
  pub has_type : get run.metadata "task_type" ≡ ok (str "repo_write")
  pub names_issue : get run.metadata "paperclip_issue_id" ≡ ok issue
  pub is_issue : same issue issue_id ≡ true
  pub has_succeeded : get run.run "status" ≡ ok (str "succeeded")
  pub has_preview : get repo_write "preview_only" ≡ ok preview
  pub is_preview : truthy preview ≡ true
  pub is_offered : apply_item run repo_write ≡ ok item

ok_inj : {A : Type 0} {a b : A} → ok a ≡ ok b → a ≡ b
ok_inj e = cc

and_then-ok : (a b : Except Bool) → and_then a b ≡ ok true → (a ≡ ok true) × (b ≡ ok true)
and_then-ok (ok true) b e = (refl, e)
and_then-ok (ok false) b e = absurd (cc)
and_then-ok (raise x) b e = absurd (cc)

has_text-ok :
    (v : Json) (key text : String) → has_text v key text ≡ ok true → get v key ≡ ok (str text)
has_text-ok v key text e =
    let (found, e1, e2) = bind-ok (get v key) _ e in e1 ∙ ap ok (is_text-eq text found (ok_inj e2))

wanted-IsPreviewOf :
    (issue_id found : Json) (r : Run) (w item : Json)
    → read_run found ≡ ok r
    → part r.metadata "repo_write" ≡ ok w
    → is_apply_run issue_id w r ≡ ok true
    → apply_item r w ≡ ok item
    → IsPreviewOf issue_id found item
unfolding is_apply_run
wanted-IsPreviewOf issue_id found r w item reads writes wanted offered =
    let (type, rest) = and_then-ok (has_text r.metadata "task_type" "repo_write") _ wanted in
    let (own, rest') = and_then-ok (is_of_issue issue_id r) _ rest in
    let (status, previewed) = and_then-ok (has_text r.run "status" "succeeded") _ rest' in
    let (issue, e1, e2) = bind-ok (get r.metadata "paperclip_issue_id") _ own in
    let (preview, e3, e4) = bind-ok (get w "preview_only") _ previewed in
    record {
      run = r;
      repo_write = w;
      issue = issue;
      preview = preview;
      is_read = reads;
      has_write = writes;
      has_type = has_text-ok r.metadata "task_type" "repo_write" type;
      names_issue = e1;
      is_issue = ok_inj e2;
      has_succeeded = has_text-ok r.run "status" "succeeded" status;
      has_preview = e3;
      is_preview = ok_inj e4;
      is_offered = offered;
    }

candidate-All :
    (issue_id found : Json) (items : List Json)
    → apply_candidate issue_id found ≡ ok items
    → All (IsPreviewOf issue_id found) items
unfolding apply_candidate
candidate-All issue_id found items e =
    let (r, reads, e1) = bind-ok (read_run found) _ e in
    let (w, writes, e2) = bind-ok (part r.metadata "repo_write") _ e1 in
    let (wanted, tested, e3) = bind-ok (is_apply_run issue_id w r) _ e2 in
    go r w reads writes wanted tested items e3
  where
    go :
        (r : Run) (w : Json)
        → read_run found ≡ ok r
        → part r.metadata "repo_write" ≡ ok w
        → (wanted : Bool) → is_apply_run issue_id w r ≡ ok wanted
        → (items : List Json) → one_item wanted (apply_item r w) ≡ ok items
        → All (IsPreviewOf issue_id found) items
    go r w reads writes true tested items e =
        let (item, offered, made) = bind-ok (apply_item r w) _ e in
        subst (All (IsPreviewOf issue_id found)) (ok_inj made)
          (wanted-IsPreviewOf issue_id found r w item reads writes tested offered, tt)
    go r w reads writes false tested items e =
        subst (All (IsPreviewOf issue_id found)) (ok_inj e) tt

All-append {ℓ} :
    {A : Type 0} (P : A → Type ℓ) (xs ys : List A) → All P xs → All P ys → All P (xs ++ ys)
All-append P [] ys h k = k
All-append P (x ∷ xs) ys h k = (h.0, All-append P xs ys h.1 k)

All-weaken {ℓ κ} :
    {A : Type 0} {P : A → Type ℓ} {Q : A → Type κ} (f : (a : A) → P a → Q a) (xs : List A)
    → All P xs
    → All Q xs
All-weaken f [] h = tt
All-weaken f (x ∷ xs) h = (f x h.0, All-weaken f xs h.1)

resolve-All :
    {P : Json → Json → Type 0} (candidate : Json → Except (List Json))
    → ((found : Json) (items : List Json) → candidate found ≡ ok items → All (P found) items)
    → (runs : Table (Option Json)) (items : List Json) → resolve candidate runs ≡ ok items
    → All (λ item. Somewhere (λ found. P found item) runs) items
unfolding resolve
resolve-All candidate sound [] items e = subst (All _) (ok_inj e) tt
resolve-All candidate sound ((name, none) ∷ files) items e =
    All-weaken (λ item h. there h) items (resolve-All candidate sound files items e)
resolve-All {P} candidate sound ((name, some found) ∷ files) items e =
    let (newer, e1, r1) = bind-ok (resolve candidate files) _ e in
    let (own, e2, r2) = bind-ok (candidate found) _ r1 in
    subst (All _) (ok_inj r2) (
      All-append _ newer own
        (All-weaken (λ item h. there h) newer (resolve-All candidate sound files newer e1))
        (All-weaken (λ item h. here h) own (sound found own e2)))

-- Whatever is offered to be applied at an issue is made from a stored run: of a repo_write, of that
-- issue, that succeeded and was a preview.
pub candidates_are_previews :
    (runs : Table (Option Json)) (issue_id : Json) (items : List Json)
    → resolve_issue_apply_candidates runs issue_id ≡ ok items
    → All (λ item. Somewhere (λ found. IsPreviewOf issue_id found item) runs) items
unfolding resolve_issue_apply_candidates
candidates_are_previews runs issue_id items e = go (truthy issue_id) e
  where
    go :
        (b : Bool)
        → (if b then resolve (apply_candidate issue_id) runs else ok []) ≡ ok items
        → All (λ item. Somewhere (λ found. IsPreviewOf issue_id found item) runs) items
    go true e = resolve-All (apply_candidate issue_id) (candidate-All issue_id) runs items e
    go false e = subst (All _) (ok_inj e) tt
