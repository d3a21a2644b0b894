-- ===== src/Vault/Confined.antt =====
-- The writer stays in its subtree (crates/obsidian/src/writer.rs).
use entheai.Base.{
  ℕ, ◌≡◌, refl, sym, ap, subst, ◌∙◌, Bool, true, false, ◌&&◌, Option, none, some, List, [], ◌∷◌,
  ◌++◌, ◌==◌, if◌then◌else◌, arith, ◌=?◌, =?_refl, all, nat_eq, inl, inr, Bool-cases, Option-cases,
}
use mathlib.Core.List.{append-nil}
use entheai.Base.Assoc.{lookup, contains_key, lookup-insert, lookup-remove}
use entheai.Base.Paths.{
  is_normal, Component, root_dir, cur_dir, parent_dir, normal, components, segments, relative,
  split, join, list_eq, component_eq, list_beq_iff,
}
use entheai.Vault.{
  Host, VaultWriter, VaultNote, AssetRef, RenderOutput, Manifest, Disk, Pass, is_plain, safe_target,
  write_confined, delete_confined, store, store_notes, store_read, store_assets, written, has_hash,
  remove_orphans, or_disk, persist_manifest, manifest_at, manifest_name, synced, apply, rel_key,
  fnv1a, stamp_updated, is_empty, list_empty,
}

-- Whether a location is the base with names behind it.
abbrev pub inside : List Component → List Component → Bool
inside [] cs = all is_normal cs
inside (b ∷ bs) [] = false
inside (b ∷ bs) (c ∷ cs) = (b =? c) && inside bs cs

inside-append : (base cs : List Component) → inside base (base ++ cs) ≡ all is_normal cs
inside-append [] cs = refl
inside-append (b ∷ bs) cs = rw (=?_refl b) (inside-append bs cs)

segments-plain : (ss : List (List ℕ)) → all is_plain (segments ss) ≡ all is_normal (segments ss)
segments-plain [] = refl
segments-plain (s ∷ ss) = ground (arith, segments-plain ss)

if_false {ℓ} : {A : Type ℓ} {b : Bool} (x y : A) → b ≡ false → (if b then x else y) ≡ y
if_false {b = true} x y h = ground (arith, h)
if_false {b = false} x y h = refl

join_names :
    (base cs : List Component) → all is_normal cs ≡ true → inside base (join base cs) ≡ true
join_names base [] h =
    subst (λ (t : List Component). inside base t ≡ true) (append-nil base) (inside-append base [])
join_names base (normal s ∷ cs) h = inside-append base (normal s ∷ cs) ∙ h
join_names base (root_dir ∷ cs) h = ground (arith, h)
join_names base (cur_dir ∷ cs) h = ground (arith, h)
join_names base (parent_dir ∷ cs) h = ground (arith, h)

join_segments :
    (base : List Component) (ss : List (List ℕ))
    → all is_plain (segments ss) ≡ true
    → inside base (join base (segments ss)) ≡ true
join_segments base ss h = join_names base (segments ss) (sym (segments-plain ss) ∙ h)

join_relative :
    (base : List Component) (ss : List (List ℕ))
    → all is_plain (relative ss) ≡ true
    → inside base (join base (relative ss)) ≡ true
join_relative base [] h = join_names base [] refl
join_relative base (s ∷ ss) h = elim (Bool-cases (s =? (b'.' ∷ []))) [
  | inl dot ↦
      rw dot (inside-append base (segments ss) ∙ sym (segments-plain ss) ∙ ground (arith, h, dot))
  | inr other ↦
      let e : relative (s ∷ ss) ≡ segments (s ∷ ss) = if_false _ _ other in
      subst (λ (cs : List Component). inside base (join base cs) ≡ true) (sym e)
        (join_segments base (s ∷ ss) (sym (ap (all is_plain) e) ∙ h))
]

join_components :
    (base : List Component) (rel : List ℕ)
    → all is_plain (components rel) ≡ true
    → inside base (join base (components rel)) ≡ true
unfolding components
join_components base [] h = join_names base [] refl
join_components base (c ∷ p) h = elim (Bool-cases (c == b'/')) [
  | inl root ↦ ground (arith, h, root)
  | inr other ↦
      let e : components (c ∷ p) ≡ relative (split (c ∷ p)) = if_false _ _ other in
      subst (λ (cs : List Component). inside base (join base cs) ≡ true) (sym e)
        (join_relative base (split (c ∷ p)) (sym (ap (all is_plain) e) ∙ h))
]

safe_target-inside :
    (subtree rel : List ℕ) (t : List Component)
    → safe_target subtree rel ≡ some t
    → inside (components subtree) t ≡ true
unfolding safe_target
safe_target-inside subtree rel t h = elim (Bool-cases (all is_plain (components rel))) [
  | inl plain ↦
      subst (λ (u : List Component). inside (components subtree) u ≡ true)
        (ground (arith, h, plain)) (join_components (components subtree) rel plain)
  | inr other ↦ ground (arith, h, other)
]

or_disk-written :
    (v : VaultWriter) (rel : List ℕ) (hash : ℕ) (p : Pass) (o : Option Disk)
    → (written v rel hash p o).disk ≡ or_disk p.disk o
or_disk-written v rel hash p none = refl
or_disk-written v rel hash p (some d) = refl

-- A location outside the subtree, of which a change of the disk is asked.
module _ (h : Host) (subtree : List ℕ) (l : List Component)
    (outside : inside (components subtree) l ≡ false) where
  apart : (t : List Component) → inside (components subtree) t ≡ true → (t =? l) ≡ false
  apart t k = elim (Bool-cases (t =? l)) [ inl e ↦ cc ((list_beq_iff t l).0 e) | inr e ↦ e ]

  or_disk-write :
      (rel bytes : List ℕ) (disk : Disk)
      → lookup l (or_disk disk (write_confined h subtree rel bytes disk)) ≡ lookup l disk
  unfolding write_confined
  or_disk-write rel bytes disk = elim (Option-cases (safe_target subtree rel)) [
    | inl e ↦ ground (arith, e)
    | inr (t, e) ↦
        ground
          (arith, e, apart t (safe_target-inside subtree rel t e), lookup-insert t l bytes disk)
  ]

  or_disk-delete :
      (rel : List ℕ) (disk : Disk)
      → lookup l (or_disk disk (delete_confined h subtree rel disk)) ≡ lookup l disk
  unfolding delete_confined
  or_disk-delete rel disk = elim (Option-cases (safe_target subtree rel)) [
    | inl e ↦ ground (arith, e)
    | inr (t, e) ↦
        ground (arith, e, apart t (safe_target-inside subtree rel t e), lookup-remove t l disk)
  ]

  remove_orphans-outside :
      (desired m : Manifest) (disk : Disk)
      → lookup l (remove_orphans h subtree desired m disk) ≡ lookup l disk
  remove_orphans-outside desired [] disk = refl
  remove_orphans-outside desired ((key, hash) ∷ m) disk =
      elim (Bool-cases (contains_key key desired)) [
        | inl kept ↦ rw kept (remove_orphans-outside desired m disk)
        | inr gone ↦ rw gone (
            remove_orphans-outside desired m (or_disk disk (delete_confined h subtree key disk))
            ∙ or_disk-delete key disk)
      ]

module _ (h : Host) (v : VaultWriter) (l : List Component)
    (outside : inside (components v.subtree) l ≡ false) where
  store-outside :
      (rel : List ℕ) (hash : ℕ) (body : List ℕ) (p : Pass)
      → lookup l (store h v rel hash body p).disk ≡ lookup l p.disk
  unfolding store
  store-outside rel hash body p =
      elim (Bool-cases (has_hash (lookup (rel_key rel) v.manifest) hash)) [
        | inl same ↦ rw same refl
        | inr new ↦ rw new (
            ap (lookup l)
              (or_disk-written v rel hash p (write_confined h v.subtree rel body p.disk))
            ∙ or_disk-write h v.subtree l outside rel body p.disk)
      ]

  store_notes-outside :
      (ns : List VaultNote) (p : Pass) → lookup l (store_notes h v ns p).disk ≡ lookup l p.disk
  store_notes-outside [] p = refl
  store_notes-outside (n ∷ ns) p =
      let body = stamp_updated h n.markdown in
      store_notes-outside ns (store h v n.rel_path (fnv1a n.markdown) body p)
      ∙ store-outside n.rel_path (fnv1a n.markdown) body p

  store_read-outside :
      (rel : List ℕ) (o : Option (List ℕ)) (p : Pass)
      → lookup l (store_read h v rel o p).disk ≡ lookup l p.disk
  store_read-outside rel none p = refl
  store_read-outside rel (some bytes) p = store-outside rel (fnv1a bytes) bytes p

  store_assets-outside :
      (xs : List AssetRef) (p : Pass) → lookup l (store_assets h v xs p).disk ≡ lookup l p.disk
  store_assets-outside [] p = refl
  store_assets-outside (a ∷ xs) p =
      store_assets-outside xs (store_read h v a.vault_rel (h.read a.repo_rel) p)
      ∙ store_read-outside a.vault_rel (h.read a.repo_rel) p

  persist_manifest-outside :
      (m : Manifest) (xs : List (List ℕ)) (disk : Disk)
      → lookup l (persist_manifest h (record v { manifest = m; last_changed = xs }) disk).0
        ≡ lookup l disk
  unfolding persist_manifest
  persist_manifest-outside m xs disk =
      let t = manifest_at v.subtree in
      ground (
        arith,
        apart h v.subtree l outside t (inside-append (components v.subtree) (manifest_name ∷ [])),
        lookup-insert t l (h.to_json m) disk,
      )

-- The writer stays in its subtree: whatever it is given to write, the paths of notes and assets and the
-- keys of its manifest included, and whatever fails, `apply` leaves every file as it was whose location is
-- not the subtree's followed by plain names.
pub apply-confined :
    (h : Host) (v : VaultWriter) (out : RenderOutput) (disk : Disk) (l : List Component)
    → inside (components v.subtree) l ≡ false
    → lookup l (apply h v out disk).1.0 ≡ lookup l disk
unfolding apply synced
apply-confined h v out disk l outside = elim (Bool-cases (is_empty out && list_empty v.manifest)) [
  | inl lazy ↦ rw lazy refl
  | inr busy ↦
      let p0 : Pass = record { desired = []; changed = []; disk = disk } in
      let p1 = store_notes h v out.notes p0 in
      let p2 = store_assets h v out.assets p1 in
      rw busy (
        persist_manifest-outside h v l outside p2.desired p2.changed
          (remove_orphans h v.subtree p2.desired v.manifest p2.disk)
        ∙ remove_orphans-outside h v.subtree l outside p2.desired v.manifest p2.disk
        ∙ store_assets-outside h v l outside out.assets p1
        ∙ store_notes-outside h v l outside out.notes p0)
]
