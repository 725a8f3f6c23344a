-- ===== src/Hermes/Policy/Laws.antt =====
-- What a request must hold for the policy to allow it.
use agentopia.Prelude.{
  ap, ◌∙◌, sym, ◌≡◌, refl, String, Bool, true, false, ◌&&◌, [], ◌==◌, contains, if◌then◌else◌,
}
use agentopia.Prelude.Json.{Json, bool, str, dict, truthy}
use agentopia.Python.{Except, ok, raise, bind-ok, get, get_or, index, is_text, is_text-eq}
use agentopia.Python.{◌>>=◌ as bind}
use agentopia.Hermes.Policy.{
  PolicyDecision, evaluate_task_policy, write_policy, other_policy, other_decision,
  file_write_policy, repo_write_policy, file_revert_policy, file_write_decision, repo_decision,
  revert_decision, is_approved, is_given, is_scoped, policy_part, safe_task_types, type_text,
  write_capable_task_types,
}

-- The approval that a write needs: required, given, and limited to the workspace.
pub record IsApproved (approval permissions : Json) : Type 0 where
  pub required : Json
  pub required_read : get approval "required" ≡ ok required
  pub required_true : truthy required ≡ true
  pub status : get approval "status" ≡ ok (str "approved")
  pub scope : get permissions "write_scope" ≡ ok (str "workspace_scoped")

-- If a Boolean conditional returns true, its condition held.
then_of :
    (b : Bool) (m : Except Bool)
    → (if b then m else ok false) ≡ ok true
    → (b ≡ true) × (m ≡ ok true)
then_of true m h = (refl, h)
then_of false m h = absurd (cc)

ok_inj : {A : Type 0} {a b : A} → ok a ≡ ok b → a ≡ b
ok_inj h = cc

is_scoped-lem :
    (permissions : Json)
    → is_scoped permissions ≡ ok true
    → get permissions "write_scope" ≡ ok (str "workspace_scoped")
is_scoped-lem permissions h =
    let (scope, found, same) =
      bind-ok (get permissions "write_scope") (λ s. ok (is_text "workspace_scoped" s)) h in
    found ∙ ap ok (is_text-eq "workspace_scoped" scope (ok_inj same))

is_approved-lem :
    (approval permissions : Json)
    → is_approved approval permissions ≡ ok true
    → IsApproved approval permissions
is_approved-lem approval permissions h =
    let (required, read, h1) =
      bind-ok (get approval "required")
        (λ r. if truthy r then is_given approval permissions else ok false) h in
    let (needed, h2) = then_of (truthy required) (is_given approval permissions) h1 in
    let (status, read2, h3) =
      bind-ok (get approval "status")
        (λ s. if is_text "approved" s then is_scoped permissions else ok false) h2 in
    let (given, h4) = then_of (is_text "approved" status) (is_scoped permissions) h3 in
    record {
      required = required;
      required_read = read;
      required_true = needed;
      status = read2 ∙ ap ok (is_text-eq "approved" status given);
      scope = is_scoped-lem permissions h4;
    }

-- What holds of the decision, if the policy reaches one.
record Ensures {A : Type 0} (P : A → Type 0) (m : Except A) : Type 0 where
  at : (a : A) → m ≡ ok a → P a

module _ {A B : Type 0} {P : B → Type 0} where
  Ensures-check :
      (m : Except A) {f : A → Except B}
      → ((a : A) → m ≡ ok a → Ensures P (f a))
      → Ensures P (bind m f)
  Ensures-check (ok a) e = record { at = λ b h. (e a refl).at b h }
  Ensures-check (raise x) e = record { at = λ b h. absurd (cc) }

  Ensures-later :
      (m : Except A) {f : A → Except B} → ((a : A) → Ensures P (f a)) → Ensures P (bind m f)
  Ensures-later m e = Ensures-check m (λ a same. e a)

module _ {A : Type 0} {P : A → Type 0} where
  Ensures-ok : {a : A} → P a → Ensures P (ok a)
  Ensures-ok {a} p = record { at = λ b h. let same : a ≡ b = cc in rw (sym same) p }

  Ensures-if :
      (b : Bool) {m n : Except A}
      → (b ≡ true → Ensures P m)
      → Ensures P n
      → Ensures P (if b then m else n)
  Ensures-if true em en = em refl
  Ensures-if false em en = en

-- An allowed decision comes with the approval of the two parts of the policy.
abbrev Allows : Json → Json → PolicyDecision → Type 0
Allows approval permissions d = d.allowed ≡ true → IsApproved approval permissions

IsApproved-and :
    (approval permissions : Json) (a p : Bool)
    → is_approved approval permissions ≡ ok a
    → (a && p) ≡ true
    → IsApproved approval permissions
IsApproved-and approval permissions true p h e = is_approved-lem approval permissions h
IsApproved-and approval permissions false p h e = absurd (cc)

module _ (approval permissions context : Json) where
  file_write_decision-Allows :
      (b o c : Bool) → (file_write_decision b o c).allowed ≡ true → b ≡ true
  file_write_decision-Allows true o c h = refl
  file_write_decision-Allows false o c h = absurd (cc)

  file_write-Allows :
      Ensures (Allows approval permissions) (file_write_policy approval permissions context)
  unfolding file_write_policy
  file_write-Allows = Ensures-later (get_or context "file_path" (str "")) λ path.
      Ensures-later (get_or context "overwrite" (bool false)) λ overwrite.
        Ensures-later (get_or context "overwrite_approved" (bool false)) λ oa.
          Ensures-check (is_approved approval permissions) λ a given. Ensures-ok λ h.
            IsApproved-and approval permissions a (truthy path) given
              (file_write_decision-Allows _ (truthy overwrite) (truthy oa) h)

  repo_decision-Allows :
      (a p y : Bool) (changes : Json)
      → is_approved approval permissions ≡ ok a
      → Ensures (Allows approval permissions) (repo_decision (a && p) y changes)
  repo_decision-Allows true p y changes given = record {
    at = λ d h _. is_approved-lem approval permissions given;
  }
  repo_decision-Allows false p y changes given = Ensures-ok (λ h. absurd (cc))

  repo_write-Allows :
      Ensures (Allows approval permissions) (repo_write_policy approval permissions context)
  unfolding repo_write_policy
  repo_write-Allows = Ensures-later (get context "changes") λ found.
      Ensures-later (get_or context "apply" (bool false)) λ apply.
        Ensures-check (is_approved approval permissions)
          λ a given. repo_decision-Allows a _ _ _ given

  revert_decision-Allows : (b : Bool) → (revert_decision b).allowed ≡ true → b ≡ true
  revert_decision-Allows true h = refl
  revert_decision-Allows false h = absurd (cc)

  file_revert-Allows :
      Ensures (Allows approval permissions) (file_revert_policy approval permissions context)
  unfolding file_revert_policy
  file_revert-Allows = Ensures-later (get_or context "file_path" (str "")) λ path.
      Ensures-later (get context "previous_content") λ previous.
        Ensures-check (is_approved approval permissions) λ a given.
          Ensures-ok λ h. IsApproved-and approval permissions a _ given (revert_decision-Allows _ h)

-- The request carries an approval that allows a write in the workspace.
pub record HasApproval (payload : Json) : Type 0 where
  pub approval : Json
  pub permissions : Json
  pub approval_part : policy_part payload "approval" ≡ ok approval
  pub permissions_part : policy_part payload "permissions" ≡ ok permissions
  pub approved : IsApproved approval permissions

abbrev AllowsWith : Json → PolicyDecision → Type 0
AllowsWith payload d = d.allowed ≡ true → HasApproval payload

module _ (payload : Json) where
  with_parts :
      {m : Except PolicyDecision} (approval permissions : Json)
      → policy_part payload "approval" ≡ ok approval
      → policy_part payload "permissions" ≡ ok permissions
      → Ensures (Allows approval permissions) m
      → Ensures (AllowsWith payload) m
  with_parts approval permissions e f allows = record {
    at = λ d h allowed. record {
      approval = approval;
      permissions = permissions;
      approval_part = e;
      permissions_part = f;
      approved = allows.at d h allowed;
    };
  }

  other_decision-denies : (b : Bool) → (other_decision b).allowed ≡ false
  other_decision-denies true = refl
  other_decision-denies false = refl

  other_policy-denies : (t : String) → (other_policy t).allowed ≡ true → ⊥
  unfolding other_policy
  other_policy-denies t h =
      let denied = other_decision-denies (contains write_capable_task_types t) in
      let same : true ≡ false = sym h ∙ denied in absurd (cc)

  write_policy-Allows :
      (task : Json) (t : String) → Ensures (AllowsWith payload) (write_policy payload task t)
  unfolding write_policy
  write_policy-Allows task t = Ensures-check (policy_part payload "approval") λ approval e.
      Ensures-check (policy_part payload "permissions") λ permissions f.
        Ensures-later (get_or task "context" (dict [])) λ context.
          with_parts approval permissions e f (
            Ensures-if (t == "file_write") (λ _. file_write-Allows approval permissions context)
              (Ensures-if (t == "repo_write") (λ _. repo_write-Allows approval permissions context)
                (Ensures-if (t == "file_revert")
                  (λ _. file_revert-Allows approval permissions context)
                  (Ensures-ok (λ h. absurd (other_policy-denies t h))))))

  evaluate-Allows :
      {task : Json} {t : String}
      → index payload "task" ≡ ok task
      → index task "type" ≡ ok (str t)
      → contains safe_task_types t ≡ false
      → Ensures (AllowsWith payload) (evaluate_task_policy payload)
  unfolding evaluate_task_policy
  evaluate-Allows {task} {t} e f unsafe = Ensures-check (index payload "task") λ task' e'.
      Ensures-check (index task' "type") λ found f'. Ensures-check (type_text found) λ t' g.
        Ensures-if (contains safe_task_types t')
          (λ safe. absurd (differ task' found t' e' f' g safe)) (write_policy-Allows task' t')
    where
      differ :
          (task' found : Json) (t' : String)
          → index payload "task" ≡ ok task'
          → index task' "type" ≡ ok found
          → type_text found ≡ ok t'
          → contains safe_task_types t' ≡ true
          → ⊥
      differ task' found t' e' f' g safe =
          let tasks : task' ≡ task = ok_inj (sym e' ∙ e) in
          let types : found ≡ str t = ok_inj (sym f' ∙ ap (λ j. index j "type") tasks ∙ f) in
          let names : t' ≡ t = ok_inj (sym g ∙ ap type_text types) in
          let same : true ≡ false = sym safe ∙ ap (contains safe_task_types) names ∙ unsafe in cc

  -- A request of a type that is not one of the safe ones is allowed, or its preview is, only with an
  -- approval that is required, given, and limited to the workspace.
  pub allowed_writes_are_approved :
      {d : PolicyDecision} {task : Json} {t : String}
      → index payload "task" ≡ ok task
      → index task "type" ≡ ok (str t)
      → contains safe_task_types t ≡ false
      → evaluate_task_policy payload ≡ ok d
      → d.allowed ≡ true
      → HasApproval payload
  allowed_writes_are_approved {d} e f unsafe h allowed = (evaluate-Allows e f unsafe).at d h allowed
