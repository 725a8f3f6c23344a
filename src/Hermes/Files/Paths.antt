-- ===== src/Hermes/Files/Paths.antt =====
-- hermes/file_ops.py: the path arithmetic of `resolve_workspace_path`, as pathlib does it where
-- there are no symbolic links.
use agentopia.Prelude.{
  ◌≡◌, ◌≢◌, refl, String, Bool, true, false, not, ◌&&◌, ◌||◌, List, [], ◌∷◌, ◌++◌, ◌==◌,
  if◌then◌else◌, eq_iff, arith, ap, Bool-cases, inl, inr, eq_refl,
}
use agentopia.Prelude.Texts.{split_at}
use text.Mathlib.Text.{starts_with}
use agentopia.Hermes.Platform.{FilePath}

unfoldable pub same_path : FilePath → FilePath → Bool
same_path [] [] = true
same_path [] (q ∷ qs) = false
same_path (p ∷ ps) [] = false
same_path (p ∷ ps) (q ∷ qs) = if p == q then same_path ps qs else false

-- `root in p.parents`
unfoldable pub is_below : FilePath → FilePath → Bool
is_below [] [] = false
is_below [] (q ∷ qs) = true
is_below (p ∷ ps) [] = false
is_below (p ∷ ps) (q ∷ qs) = if p == q then is_below ps qs else false

abbrev drop_last : FilePath → FilePath
drop_last [] = []
drop_last (p ∷ []) = []
drop_last (p ∷ q ∷ ps) = p ∷ drop_last (q ∷ ps)

-- `p.parent`
abbrev pub parent : FilePath → FilePath
parent p = drop_last p

-- One part of a path, as `resolve` goes through it.
abbrev follow : FilePath → String → FilePath
follow at part =
    if part == "" || part == "." then at else if part == ".." then drop_last at else at ++ part ∷ []

unfoldable pub follow_all : FilePath → List String → FilePath
follow_all at [] = at
follow_all at (part ∷ parts) = follow_all (follow at part) parts

-- A text that begins with exactly two slashes is a path under another root in POSIX.
abbrev pub has_other_root : String → Bool
has_other_root relative = starts_with relative "//" && not (starts_with relative "///")

-- `(workspace_root / relative_path).resolve()`: an absolute text takes the place of the root.
unfoldable pub candidate : FilePath → String → FilePath
candidate root relative =
    if starts_with relative "/"
    then follow_all [] (split_at 47 relative)
    else follow_all root (split_at 47 relative)

pub same_path_refl : (p : FilePath) → same_path p p ≡ true
unfolding same_path
same_path_refl [] = refl
same_path_refl (p ∷ ps) = ground (arith, same_path_refl ps, eq_iff p p, eq_refl p)

pub same_path_eq : (p q : FilePath) → same_path p q ≡ true → p ≡ q
unfolding same_path
same_path_eq [] [] h = refl
same_path_eq [] (q ∷ qs) h = cc
same_path_eq (p ∷ ps) [] h = cc
same_path_eq (p ∷ ps) (q ∷ qs) h = elim (Bool-cases (p == q)) [
  | inl same ↦
      let tails : ps ≡ qs = same_path_eq ps qs (ground arith) in
      let heads : p ≡ q = (eq_iff p q).0 same in cc
  | inr other ↦ absurd (ground arith)
]

pub is_below_same : (root p q : FilePath) → same_path p q ≡ true → is_below root p ≡ is_below root q
is_below_same root p q h = ap (is_below root) (same_path_eq p q h)

pub is_below-append : (dir more : FilePath) → more ≢ [] → is_below dir (dir ++ more) ≡ true
unfolding is_below
is_below-append [] [] some_more = absurd (some_more refl)
is_below-append [] (p ∷ ps) some_more = refl
is_below-append (p ∷ ps) more some_more = rw (eq_refl p) (is_below-append ps more some_more)
