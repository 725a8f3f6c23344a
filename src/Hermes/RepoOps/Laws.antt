-- ===== src/Hermes/RepoOps/Laws.antt =====
-- Which files a repository write and its preview change.
use agentopia.Prelude.{Bool, List, [], ◌∷◌}
use agentopia.Prelude.Json.{Json}
use agentopia.Hermes.Platform.{FilePath, Platform}
use agentopia.Hermes.Files.Paths.{is_below}
use agentopia.Hermes.Files.Laws.{write_workspace_file-Confined}
use agentopia.Hermes.RepoOps.{
  inspect_repo_change, apply_change, apply_all, preview_all, apply_repo_write, preview_repo_write,
}
use agentopia.Hermes.Confined.{Confined, Confined-pure, Confined-lift, Confined-look, Confined-bind}

module _ {reach : FilePath → Bool} (env : Platform) (root : FilePath) where
  inspect_repo_change-Confined :
      (change : Json) → Confined reach (inspect_repo_change env root change)
  unfolding inspect_repo_change
  inspect_repo_change-Confined change = Confined-bind (Confined-lift _) λ file_path.
      Confined-bind (Confined-lift _) λ content. Confined-bind (Confined-lift _) λ overwrite.
        Confined-bind (Confined-lift _) λ approved. Confined-bind (Confined-lift _) λ target.
          Confined-bind (Confined-look _) λ node.
            Confined-bind (Confined-lift _)
              λ previous. Confined-bind (Confined-lift _) λ text. Confined-pure _

  preview_all-Confined : (changes : List Json) → Confined reach (preview_all env root changes)
  unfolding preview_all
  preview_all-Confined [] = Confined-pure []
  preview_all-Confined (change ∷ changes) =
      Confined-bind (inspect_repo_change-Confined change)
        λ r. Confined-bind (preview_all-Confined changes) λ rs. Confined-pure (r ∷ rs)

  -- A preview reaches no file at all.
  pub preview_repo_write-Confined :
      (changes : List Json) → Confined reach (preview_repo_write env root changes)
  unfolding preview_repo_write
  preview_repo_write-Confined [] = Confined-lift _
  preview_repo_write-Confined (change ∷ changes) =
      Confined-bind (preview_all-Confined (change ∷ changes)) λ rs. Confined-pure _

module _ (env : Platform) (root : FilePath) where
  apply_change-Confined : (change : Json) → Confined (is_below root) (apply_change env root change)
  unfolding apply_change
  apply_change-Confined change = Confined-bind (inspect_repo_change-Confined env root change) λ i.
      Confined-bind (Confined-lift _) λ file_path. Confined-bind (Confined-lift _) λ content.
        Confined-bind (write_workspace_file-Confined env root file_path content i.overwrite)
          λ w. Confined-pure _

  apply_all-Confined : (changes : List Json) → Confined (is_below root) (apply_all env root changes)
  unfolding apply_all
  apply_all-Confined [] = Confined-pure []
  apply_all-Confined (change ∷ changes) =
      Confined-bind (apply_change-Confined change)
        λ r. Confined-bind (apply_all-Confined changes) λ rs. Confined-pure (r ∷ rs)

  pub apply_repo_write-Confined :
      (changes : List Json) → Confined (is_below root) (apply_repo_write env root changes)
  unfolding apply_repo_write
  apply_repo_write-Confined [] = Confined-lift _
  apply_repo_write-Confined (change ∷ changes) =
      Confined-bind (apply_all-Confined (change ∷ changes)) λ rs. Confined-pure _
