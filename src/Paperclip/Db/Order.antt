-- ===== src/Paperclip/Db/Order.antt =====
-- `ORDER BY created_at ASC`: rows with the same timestamp stay in the order of insertion.
use agentopia.Prelude.{ℕ, List, [], ◌∷◌, leb, if◌then◌else◌}

module _ {ℓ} {A : Type ℓ} (key : A → ℕ) where
  unfoldable pub insert_by : A → List A → List A
  insert_by a [] = a ∷ []
  insert_by a (b ∷ bs) = if leb (key a) (key b) then a ∷ b ∷ bs else b ∷ insert_by a bs

  unfoldable pub sort_by : List A → List A
  unfolding insert_by
  sort_by [] = []
  sort_by (a ∷ as') = insert_by a (sort_by as')
