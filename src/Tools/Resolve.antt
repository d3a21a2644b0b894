-- ===== src/Tools/Resolve.antt =====
-- Accepted paths stay in the root (crates/tools/src/fs.rs, `resolve_in_root`).
use entheai.Base.{
  ℕ, ◌≡◌, refl, sym, ap, subst, ◌∙◌, Bool, true, false, ◌&&◌, Option, none, some, List, [], ◌∷◌,
  ◌++◌, if◌then◌else◌, nat_eq, all, arith, inl, inr, Option-cases,
}
use entheai.Base.Paths.{
  is_normal, Component, root_dir, cur_dir, parent_dir, normal, components, join, list_eq,
  component_eq, component_beq_iff,
}
use entheai.Tools.{FileSystem, starts_with, init, pop, normalize, ancestor, stays, resolve_in_root}

-- The root of the file system and names behind it.
abbrev pub is_rooted : List Component → Bool
is_rooted (root_dir ∷ p) = all is_normal p
is_rooted _ = false

all-append : (p q : List Component) → all is_normal (p ++ q) ≡ (all is_normal p && all is_normal q)
all-append [] q = refl
all-append (c ∷ p) q = ground (arith, all-append p q)

all-init :
    (c : Component) (p : List Component)
    → all is_normal (c ∷ p) ≡ true
    → all is_normal (init c p) ≡ true
all-init c [] h = refl
all-init c (d ∷ p) h = ground (arith, h, all-init d p (ground (arith, h)))

rooted-pop : (p : List Component) → is_rooted p ≡ true → is_rooted (pop p) ≡ true
rooted-pop [] h = h
rooted-pop (root_dir ∷ []) h = h
rooted-pop (root_dir ∷ d ∷ p) h = all-init d p h
rooted-pop (cur_dir ∷ p) h = ground (arith, h)
rooted-pop (parent_dir ∷ p) h = ground (arith, h)
rooted-pop (normal s ∷ p) h = ground (arith, h)

rooted-push :
    (p : List Component) (s : List ℕ) → is_rooted p ≡ true → is_rooted (p ++ normal s ∷ []) ≡ true
rooted-push [] s h = ground (arith, h)
rooted-push (root_dir ∷ p) s h = all-append p (normal s ∷ []) ∙ ground (arith, h)
rooted-push (cur_dir ∷ p) s h = ground (arith, h)
rooted-push (parent_dir ∷ p) s h = ground (arith, h)
rooted-push (normal t ∷ p) s h = ground (arith, h)

normalize-rooted :
    (root p cs q : List Component)
    → is_rooted p ≡ true
    → normalize root p cs ≡ some q
    → is_rooted q ≡ true
unfolding normalize
normalize-rooted root p [] q h e = ground (arith, h, e)
normalize-rooted root p (parent_dir ∷ cs) q h e =
    normalize-rooted root (pop p) cs q (rooted-pop p h) (ground (arith, e))
normalize-rooted root p (cur_dir ∷ cs) q h e = normalize-rooted root p cs q h e
normalize-rooted root p (root_dir ∷ cs) q h e = normalize-rooted root (root_dir ∷ []) cs q refl e
normalize-rooted root p (normal s ∷ cs) q h e =
    normalize-rooted root (p ++ normal s ∷ []) cs q (rooted-push p s h) e

-- From nothing, a joined path begins with the root of the file system.
normalize-join :
    (root names cs q : List Component)
    → normalize root [] (join (root_dir ∷ names) cs) ≡ some q
    → is_rooted q ≡ true
unfolding normalize
normalize-join root names [] q e = normalize-rooted root (root_dir ∷ []) names q refl e
normalize-join root names (root_dir ∷ cs) q e = normalize-rooted root (root_dir ∷ []) cs q refl e
normalize-join root names (cur_dir ∷ cs) q e =
    normalize-rooted root (root_dir ∷ []) (names ++ cs) q refl e
normalize-join root names (parent_dir ∷ cs) q e =
    normalize-rooted root (root_dir ∷ []) (names ++ parent_dir ∷ cs) q refl e
normalize-join root names (normal s ∷ cs) q e =
    normalize-rooted root (root_dir ∷ []) (names ++ normal s ∷ cs) q refl e

starts_with-append :
    (p base : List Component)
    → starts_with p base ≡ true
    → (below : List Component) × (p ≡ base ++ below)
starts_with-append p [] h = (p, refl)
starts_with-append [] (b ∷ base) h = ground (arith, h)
starts_with-append (c ∷ p) (b ∷ base) h =
    let (below, e) = starts_with-append p base (ground (arith, h)) in
    (below, ground (arith, h, e, component_beq_iff c b))

-- What the end of `resolve_in_root` accepts of a normalized path.
stays-some :
    (root q p : List Component) (o : Option (List Component))
    → (if starts_with q root then stays root o q else none) ≡ some p
    → (q ≡ p)
      × (starts_with q root ≡ true)
      × ((c : List Component) → o ≡ some c → starts_with c root ≡ true)
stays-some root q p none e = ground (arith, e)
stays-some root q p (some d) e = ground (arith, e)

normalize-some :
    (fs : FileSystem) (root : List Component) (rel : List ℕ) (p : List Component)
    → resolve_in_root fs root rel ≡ some p
    → (normalize root [] (join root (components rel)) ≡ some p)
      × (starts_with p root ≡ true)
      × ((c : List Component)
          → fs.canonicalize (ancestor fs p p) ≡ some c
          → starts_with c root ≡ true)
unfolding resolve_in_root
normalize-some fs root rel p e =
    elim (Option-cases (normalize root [] (join root (components rel)))) [
      | inl fails ↦ ground (arith, e, fails)
      | inr (q, found) ↦
          let (same, within, canonical) =
            stays-some root q p (fs.canonicalize (ancestor fs q q)) (ground (arith, e, found)) in
          (
            found ∙ ap some same,
            subst (λ (t : List Component). starts_with t root ≡ true) same within,
            subst
                (λ (t : List Component).
                  (c : List Component)
                  → fs.canonicalize (ancestor fs t t) ≡ some c
                  → starts_with c root ≡ true)
                same canonical,
          )
    ]

-- Accepted paths stay in the root: where the root is absolute and made of plain names, a path that
-- `resolve_in_root` returns is the root with plain names behind it, with no `..`, and what its deepest
-- existing ancestor resolves to, if it does, begins with the root.
pub resolve_in_root-inside :
    (fs : FileSystem) (names : List Component) (rel : List ℕ) (p : List Component)
    → all is_normal names ≡ true
    → resolve_in_root fs (root_dir ∷ names) rel ≡ some p
    → ((below : List Component) × (p ≡ root_dir ∷ names ++ below) × (all is_normal below ≡ true))
      × ((c : List Component)
          → fs.canonicalize (ancestor fs p p) ≡ some c
          → starts_with c (root_dir ∷ names) ≡ true)
resolve_in_root-inside fs names rel p plain e =
    let root : List Component = root_dir ∷ names in
    let (found, within, canonical) = normalize-some fs root rel p e in
    let (below, split) = starts_with-append p root within in
    let rooted : all is_normal (names ++ below) ≡ true =
      ap is_rooted (sym split) ∙ normalize-join root names (components rel) p found in
    ((below, split, ground (arith, sym (all-append names below) ∙ rooted)), canonical)
