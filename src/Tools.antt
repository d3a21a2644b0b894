-- ===== src/Tools.antt =====
-- crates/tools/src/fs.rs: the paths that the file tools accept. A `PathBuf` is the list of its
-- components; what exists and what a path resolves to is the file system's.
pub mod Resolve
pub mod Relative
pub mod Edit
pub mod Edited
pub mod Shell
pub mod Search
use entheai.Base.{
  ℕ, Bool, true, false, not, ◌&&◌, ◌||◌, Option, none, some, List, [], ◌∷◌, ◌++◌, if◌then◌else◌,
  ◌>>=◌, ◌=?◌, nat_eq,
}
use entheai.Base.Paths.{
  Component, root_dir, cur_dir, parent_dir, normal, components, join, list_eq, component_eq,
}

pub record FileSystem : Type 0 where
  pub exists : List Component → Bool
  pub canonicalize : List Component → Option (List Component)

-- `Path::starts_with`.
abbrev pub starts_with : List Component → List Component → Bool
starts_with p [] = true
starts_with [] (b ∷ base) = false
starts_with (c ∷ p) (b ∷ base) = (c =? b) && starts_with p base

-- `PathBuf::push`: the root replaces what was there.
abbrev pub push : List Component → Component → List Component
push p root_dir = root_dir ∷ []
push p c = p ++ c ∷ []

abbrev pub init : Component → List Component → List Component
init d [] = []
init d (e ∷ q) = d ∷ init e q

-- `PathBuf::pop`: the root stays.
abbrev pub pop : List Component → List Component
pop [] = []
pop (root_dir ∷ []) = root_dir ∷ []
pop (c ∷ p) = init c p

-- The loop over the components of the joined path.
unfoldable pub normalize :
    List Component → List Component → List Component → Option (List Component)
normalize root p [] = some p
normalize root p (parent_dir ∷ cs) =
    let rest = normalize root (pop p) cs in
    if not (starts_with p root) || (p =? root) then none else rest
normalize root p (cur_dir ∷ cs) = normalize root p cs
normalize root p (root_dir ∷ cs) = normalize root (push p root_dir) cs
normalize root p (normal s ∷ cs) = normalize root (push p (normal s)) cs

-- The loop that looks for an ancestor that exists, the last component first: the root and the empty
-- path have no parent.
abbrev pub ancestor : FileSystem → List Component → List Component → List Component
ancestor fs [] p = p
ancestor fs (c ∷ up) p = let above = ancestor fs up (pop p) in if fs.exists p then p else above

abbrev pub stays :
    List Component → Option (List Component) → List Component → Option (List Component)
stays root none p = some p
stays root (some canonical) p = if starts_with canonical root then some p else none

-- The path, or `none` for `ToolError::PathEscape`.
unfoldable pub resolve_in_root : FileSystem → List Component → List ℕ → Option (List Component)
unfolding normalize
resolve_in_root fs root rel = do
  p ← normalize root [] (join root (components rel))
  if starts_with p root then stays root (fs.canonicalize (ancestor fs p p)) p else none
