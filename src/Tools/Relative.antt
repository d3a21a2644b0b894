-- ===== src/Tools/Relative.antt =====
-- What a relative path is accepted as (crates/tools/src/fs.rs, `resolve_in_root`).
use entheai.Base.{
  ℕ, ◌≡◌, refl, sym, ap, ◌∙◌, Bool, true, false, Option, none, some, List, [], ◌∷◌, ◌++◌, ◌>>=◌,
  ◌=?◌, =?_refl, nat_eq, all, arith, inl, inr, Option-cases,
}
use mathlib.Core.List.{append-nil, append_assoc}
use entheai.Base.Assoc.{map_option}
use entheai.Base.Paths.{
  is_normal, Component, root_dir, cur_dir, parent_dir, normal, components, join, list_eq,
  component_eq,
}
use entheai.Tools.{FileSystem, starts_with, init, pop, normalize, ancestor, stays, resolve_in_root}

-- A walk below the root: `..` goes up one name, and not above the root.
abbrev pub walk : List Component → List Component → Option (List Component)
walk below [] = some below
walk below (cur_dir ∷ cs) = walk below cs
walk below (normal s ∷ cs) = walk (below ++ normal s ∷ []) cs
walk below (root_dir ∷ cs) = none
walk [] (parent_dir ∷ cs) = none
walk (c ∷ below) (parent_dir ∷ cs) = walk (init c below) cs

abbrev pub is_relative : Component → Bool
is_relative root_dir = false
is_relative _ = true

starts_with-append_self : (root below : List Component) → starts_with (root ++ below) root ≡ true
starts_with-append_self [] below = refl
starts_with-append_self (c ∷ root) below = rw (=?_refl c) (starts_with-append_self root below)

append_self-neq :
    (root : List Component) (c : Component) (below : List Component)
    → ((root ++ c ∷ below) =? root) ≡ false
append_self-neq [] c below = refl
append_self-neq (d ∷ root) c below = rw (=?_refl d) (append_self-neq root c below)

init-append :
    (d : Component) (root : List Component) (c : Component) (below : List Component)
    → init d (root ++ c ∷ below) ≡ d ∷ root ++ init c below
init-append d [] c below = refl
init-append d (e ∷ root) c below = ap (λ (t : List Component). d ∷ t) (init-append e root c below)

pop-append :
    (names : List Component) (c : Component) (below : List Component)
    → pop (root_dir ∷ names ++ c ∷ below) ≡ root_dir ∷ names ++ init c below
pop-append [] c below = refl
pop-append (d ∷ names) c below = init-append root_dir (d ∷ names) c below

module _ (names : List Component) where
  abbrev root : List Component
  root = root_dir ∷ names

  normalize-walk :
      (below cs : List Component)
      → all is_relative cs ≡ true
      → normalize root (root ++ below) cs ≡ map_option (λ b. root ++ b) (walk below cs)
  unfolding normalize
  normalize-walk below [] h = refl
  normalize-walk below (cur_dir ∷ cs) h = normalize-walk below cs h
  normalize-walk below (normal s ∷ cs) h =
      ap (λ (t : List Component). normalize root t cs) (append_assoc root below (normal s ∷ []))
      ∙ normalize-walk (below ++ normal s ∷ []) cs h
  normalize-walk below (root_dir ∷ cs) h = ground (arith, h)
  normalize-walk [] (parent_dir ∷ cs) h =
      let same : ((names ++ []) =? names) ≡ true =
        ap (λ (t : List Component). t =? names) (append-nil names) ∙ =?_refl names in
      ground (arith, same)
  normalize-walk (c ∷ below) (parent_dir ∷ cs) h =
      ground (arith, starts_with-append_self names (c ∷ below), append_self-neq names c below)
      ∙ ap (λ (t : List Component). normalize root t cs) (pop-append names c below)
      ∙ normalize-walk (init c below) cs h

  -- The components of the root are pushed one after another.
  normalize-root :
      (p ns cs : List Component)
      → all is_normal ns ≡ true
      → normalize root p (ns ++ cs) ≡ normalize root (p ++ ns) cs
  unfolding normalize
  normalize-root p [] cs h = ap (λ (t : List Component). normalize root t cs) (sym (append-nil p))
  normalize-root p (normal s ∷ ns) cs h =
      normalize-root (p ++ normal s ∷ []) ns cs h
      ∙ ap (λ (t : List Component). normalize root t cs) (append_assoc p (normal s ∷ []) ns)
  normalize-root p (root_dir ∷ ns) cs h = ground (arith, h)
  normalize-root p (cur_dir ∷ ns) cs h = ground (arith, h)
  normalize-root p (parent_dir ∷ ns) cs h = ground (arith, h)

  normalize-append :
      (cs : List Component)
      → all is_normal names ≡ true
      → all is_relative cs ≡ true
      → normalize root [] (root ++ cs) ≡ map_option (λ b. root ++ b) (walk [] cs)
  unfolding normalize
  normalize-append cs plain h =
      normalize-root (root_dir ∷ []) names cs plain
      ∙ ap (λ (t : List Component). normalize root t cs) (sym (append-nil root))
      ∙ normalize-walk [] cs h

  normalize-relative :
      (cs : List Component)
      → all is_normal names ≡ true
      → all is_relative cs ≡ true
      → normalize root [] (join root cs) ≡ map_option (λ b. root ++ b) (walk [] cs)
  normalize-relative [] plain h =
      ap (normalize root []) (sym (append-nil root)) ∙ normalize-append [] plain h
  normalize-relative (root_dir ∷ cs) plain h = ground (arith, h)
  normalize-relative (cur_dir ∷ cs) plain h = normalize-append cs plain h
  normalize-relative (parent_dir ∷ cs) plain h = normalize-append (parent_dir ∷ cs) plain h
  normalize-relative (normal s ∷ cs) plain h = normalize-append (normal s ∷ cs) plain h

-- What the symbolic links in it leave of a path below the root.
abbrev pub linked : FileSystem → List Component → List Component → Option (List Component)
linked fs root below =
    stays root (fs.canonicalize (ancestor fs (root ++ below) (root ++ below))) (root ++ below)

-- What a relative path is accepted as: where the root is absolute and made of plain names,
-- `resolve_in_root` of a path that is not absolute is the walk of its components from the root down, with
-- `..` allowed as long as it does not leave the root, and then the test of the symbolic links.
pub resolve_in_root-walk :
    (fs : FileSystem) (names : List Component) (rel : List ℕ)
    → all is_normal names ≡ true
    → all is_relative (components rel) ≡ true
    → resolve_in_root fs (root_dir ∷ names) rel
      ≡ (walk [] (components rel) >>= linked fs (root_dir ∷ names))
unfolding resolve_in_root
resolve_in_root-walk fs names rel plain h = elim (Option-cases (walk [] (components rel))) [
  | inl e ↦ ground (arith, e, normalize-relative names (components rel) plain h)
  | inr (below, e) ↦ ground (
    arith,
    e,
    normalize-relative names (components rel) plain h,
    starts_with-append_self (root_dir ∷ names) below,
  )
]
