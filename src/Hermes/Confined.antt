-- ===== src/Hermes/Confined.antt =====
-- Jobs that write within a set of paths only, by the steps of the job.
use agentopia.Prelude.{
  ℕ, ◌≡◌, refl, ◌∙◌, String, Option, none, some, Bool, true, false, if◌then◌else◌,
}
use agentopia.Prelude.Json.{Json}
use agentopia.Python.{Except, ok, raise, Exception}
use agentopia.Hermes.Platform.{
  FilePath, Node, file, directory, Files, Host, Platform, CommandRequest, Job, pure, lift, look,
  rescue, ◌>>=◌, ◌>>◌, change, read_clock, run_command, wake_memory, MemoryScope,
}

-- The text of a file; a directory has none.
abbrev pub text_of_node : Option Node → Option String
text_of_node none = none
text_of_node (some (file text)) = some text
text_of_node (some directory) = none

abbrev pub text_at : FilePath → Files → Option String
text_at p fs = text_of_node (fs p)

-- A job leaves every text out of reach as it was, whether it returns or raises.
pub record Confined {A : Type 0} (reach : FilePath → Bool) (m : Job A) : Type 0 where
  pub at : (h : Host) (q : FilePath) → reach q ≡ false → text_at q (m h).1.files ≡ text_at q h.files

module _ {reach : FilePath → Bool} {A : Type 0} where
  pub Confined-pure : (a : A) → Confined reach (pure a)
  unfolding pure
  Confined-pure a = record { at = λ h q out. refl }

  pub Confined-lift : (r : Except A) → Confined reach (lift r)
  unfolding lift
  Confined-lift r = record { at = λ h q out. refl }

  pub Confined-look : (f : Files → A) → Confined reach (look f)
  unfolding look
  Confined-look f = record { at = λ h q out. refl }

  pub Confined-if :
      (b : Bool) {m n : Job A}
      → Confined reach m
      → Confined reach n
      → Confined reach (if b then m else n)
  Confined-if true cm cn = cm
  Confined-if false cm cn = cn

-- The second branch may use that the test failed.
pub Confined-unless :
    {reach : FilePath → Bool} {A : Type 0} (b : Bool) {m n : Job A}
    → Confined reach m
    → (b ≡ false → Confined reach n)
    → Confined reach (if b then m else n)
Confined-unless true cm cn = cm
Confined-unless false cm cn = cn refl

pub Confined-read_clock :
    {reach : FilePath → Bool} (env : Platform) → Confined reach (read_clock env)
unfolding read_clock
Confined-read_clock env = record { at = λ h q out. refl }

-- The runner writes within a set of paths only.
pub record RunsWithin (reach : FilePath → Bool) (env : Platform) : Type 0 where
  pub at :
      (n : ℕ) (r : CommandRequest) (fs : Files) (q : FilePath)
      → reach q ≡ false
      → text_at q (env.run n r fs).1 ≡ text_at q fs

-- The memory service writes within a set of paths only.
pub record WakesWithin (reach : FilePath → Bool) (env : Platform) : Type 0 where
  pub at :
      (scope : MemoryScope) (title description : Json) (fs : Files) (q : FilePath)
      → reach q ≡ false
      → text_at q (env.wakeup scope title description fs).1 ≡ text_at q fs

pub Confined-wake_memory :
    {reach : FilePath → Bool} (env : Platform) (scope : MemoryScope) (title description : Json)
    → WakesWithin reach env
    → Confined reach (wake_memory env scope title description)
unfolding wake_memory
Confined-wake_memory env scope title description within = record {
  at = λ h q out. within.at scope title description h.files q out;
}

pub Confined-run_command :
    {reach : FilePath → Bool} (env : Platform) (r : CommandRequest)
    → RunsWithin reach env
    → Confined reach (run_command env r)
unfolding run_command
Confined-run_command env r within = record { at = λ h q out. within.at _ r h.files q out }

-- A job that writes within a set writes within a larger one.
pub Confined-weaken :
    {reach wider : FilePath → Bool} {A : Type 0} {m : Job A}
    → ((q : FilePath) → wider q ≡ false → reach q ≡ false)
    → Confined reach m
    → Confined wider m
Confined-weaken narrower cm = record { at = λ h q out. cm.at h q (narrower q out) }

pub Confined-change :
    {reach : FilePath → Bool} (f : Files → Except Files)
    → ((fs fs' : Files) (q : FilePath)
        → reach q ≡ false
        → f fs ≡ ok fs'
        → text_at q fs' ≡ text_at q fs)
    → Confined reach (change f)
unfolding change
Confined-change {reach = reach} f kept = record {
  at = λ h q out. go (f h.files) h q out (λ fs' e. kept h.files fs' q out e);
}
  where
    go :
        (r : Except Files) (h : Host) (q : FilePath)
        → reach q ≡ false
        → ((fs' : Files) → r ≡ ok fs' → text_at q fs' ≡ text_at q h.files)
        → text_at q (change (λ fs. r) h).1.files ≡ text_at q h.files
    go (ok fs') h q out same = same fs' refl
    go (raise e) h q out same = refl

module _ {reach : FilePath → Bool} {A B : Type 0} where
  pub Confined-bind :
      {m : Job A} {f : A → Job B}
      → Confined reach m
      → ((a : A) → Confined reach (f a))
      → Confined reach (m >>= f)
  unfolding ◌>>=◌
  Confined-bind {m} {f} cm cf = record { at = λ h q out. go (m h).0 (m h).1 q out ∙ cm.at h q out }
    where
      go :
          (r : Except A) (h : Host) (q : FilePath)
          → reach q ≡ false
          → text_at q (((λ (g : Host). (r, h)) >>= f) h).1.files ≡ text_at q h.files
      go (ok a) h q out = (cf a).at h q out
      go (raise e) h q out = refl

  pub Confined-then :
      {m : Job A} {k : Job B} → Confined reach m → Confined reach k → Confined reach (m >> k)
  Confined-then cm ck = Confined-bind cm (λ _. ck)

  -- After a check that did not raise, its value is known.
  pub Confined-check :
      (r : Except A) {f : A → Job B}
      → ((a : A) → r ≡ ok a → Confined reach (f a))
      → Confined reach (lift r >>= f)
  unfolding lift ◌>>=◌
  Confined-check (ok a) cf = record { at = λ h q out. (cf a refl).at h q out }
  Confined-check (raise e) cf = record { at = λ h q out. refl }

module _ {reach : FilePath → Bool} {A : Type 0} where
  pub Confined-rescue :
      {m : Job A} (answer : Exception → A) → Confined reach m → Confined reach (rescue m answer)
  unfolding rescue
  Confined-rescue {m} answer cm = record { at = λ h q out. go (m h).0 (m h).1 q ∙ cm.at h q out }
    where
      go :
          (r : Except A) (h : Host) (q : FilePath)
          → text_at q (rescue (λ (g : Host). (r, h)) answer h).1.files ≡ text_at q h.files
      go (ok a) h q = refl
      go (raise e) h q = refl
