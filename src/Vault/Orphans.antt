-- ===== src/Vault/Orphans.antt =====
-- The writer removes what is no longer generated (crates/obsidian/src/writer.rs).
use entheai.Base.{
  ℕ, ◌≡◌, sym, subst, ◌∙◌, true, false, ◌&&◌, ◌||◌, none, some, List, [], ◌∷◌, arith, ◌=?◌, =?_refl,
  nat_eq, inl, inr, Bool-cases, Option-cases, if◌then◌else◌,
}
use entheai.Base.Assoc.{lookup, contains_key, lookup-remove}
use entheai.Base.Sets.{member}
use entheai.Base.Paths.{Component, list_eq, component_eq, list_beq_iff}
use entheai.Vault.{
  Host, VaultWriter, RenderOutput, Manifest, Disk, Pass, safe_target, delete_confined, store_notes,
  store_assets, remove_orphans, or_disk, manifest_at, synced, apply, is_empty, list_empty,
}
use entheai.Vault.Sync.{note_keys, asset_keys, no_key, synced-keys, persist_manifest-other}

module _ (h : Host) (subtree : List ℕ) (t : List Component) where
  delete-none :
      (key : List ℕ) (disk : Disk)
      → lookup t disk ≡ none
      → lookup t (or_disk disk (delete_confined h subtree key disk)) ≡ none
  unfolding delete_confined
  delete-none key disk e = elim (Option-cases (safe_target subtree key)) [
    | inl s ↦ ground (arith, e, s)
    | inr (u, s) ↦ ground (arith, e, s, lookup-remove u t disk)
  ]

  delete-target :
      (key : List ℕ) (disk : Disk)
      → safe_target subtree key ≡ some t
      → h.can_remove t ≡ true
      → lookup t (or_disk disk (delete_confined h subtree key disk)) ≡ none
  unfolding delete_confined
  delete-target key disk s e = ground (arith, s, e, lookup-remove t t disk, =?_refl t)

  remove_orphans-none_left :
      (desired m : Manifest) (disk : Disk)
      → lookup t disk ≡ none
      → lookup t (remove_orphans h subtree desired m disk) ≡ none
  remove_orphans-none_left desired [] disk e = e
  remove_orphans-none_left desired ((key, hash) ∷ m) disk e =
      elim (Bool-cases (contains_key key desired)) [
        | inl kept ↦ rw kept (remove_orphans-none_left desired m disk e)
        | inr gone ↦ rw gone (
            remove_orphans-none_left desired m (or_disk disk (delete_confined h subtree key disk))
              (delete-none key disk e))
      ]

  remove_orphans-target :
      (key : List ℕ) (desired m : Manifest) (disk : Disk)
      → safe_target subtree key ≡ some t
      → h.can_remove t ≡ true
      → contains_key key desired ≡ false
      → contains_key key m ≡ true
      → lookup t (remove_orphans h subtree desired m disk) ≡ none
  unfolding lookup
  remove_orphans-target key desired [] disk s e gone k = ground (arith, k)
  remove_orphans-target key desired ((j, hash) ∷ m) disk s e gone k = elim (Bool-cases (j =? key)) [
    | inl same ↦
        let ej : key ≡ j = sym ((list_beq_iff j key).0 same) in
        let gj : contains_key j desired ≡ false =
          subst (λ (i : List ℕ). contains_key i desired ≡ false) ej gone in
        let sj : safe_target subtree j ≡ some t =
          subst (λ (i : List ℕ). safe_target subtree i ≡ some t) ej s in
        rw gj (
          remove_orphans-none_left desired m (or_disk disk (delete_confined h subtree j disk))
            (delete-target j disk sj e))
    | inr other ↦
        remove_orphans-target key desired m
          (if contains_key j desired then disk else or_disk disk (delete_confined h subtree j disk))
          s e gone (ground (arith, k, other))
  ]

synced-orphan :
    (h : Host) (v : VaultWriter) (out : RenderOutput) (disk : Disk) (key : List ℕ)
    (t : List Component)
    → contains_key key v.manifest ≡ true
    → contains_key key (synced h v out disk).0.manifest ≡ false
    → safe_target v.subtree key ≡ some t
    → (manifest_at v.subtree =? t) ≡ false
    → h.can_remove t ≡ true
    → lookup t (synced h v out disk).1.0 ≡ none
unfolding synced
synced-orphan h v out disk key t k gone s other e =
    let p0 : Pass = record { desired = []; changed = []; disk = disk } in
    let p2 = store_assets h v out.assets (store_notes h v out.notes p0) in
    let w : VaultWriter = record v { manifest = p2.desired; last_changed = p2.changed } in
    persist_manifest-other h w (remove_orphans h v.subtree p2.desired v.manifest p2.disk) t other
    ∙ remove_orphans-target h v.subtree t key p2.desired v.manifest p2.disk s e gone k

-- What is no longer generated is gone: where the manifest has a key that is no note's and no asset's of
-- the output, which names a location in the subtree other than the manifest's, and the host lets the file
-- there be removed, after `apply` there is no file at that location and the manifest has not that key.
pub apply-orphan :
    (h : Host) (v : VaultWriter) (out : RenderOutput) (disk : Disk) (key : List ℕ)
    (t : List Component)
    → contains_key key v.manifest ≡ true
    → (member key (note_keys out.notes) || member key (asset_keys out.assets)) ≡ false
    → safe_target v.subtree key ≡ some t
    → (manifest_at v.subtree =? t) ≡ false
    → h.can_remove t ≡ true
    → (lookup t (apply h v out disk).1.0 ≡ none)
      × (contains_key key (apply h v out disk).0.manifest ≡ false)
unfolding apply
apply-orphan h v out disk key t k fresh s other e =
    let busy : (is_empty out && list_empty v.manifest) ≡ false =
      ground (arith, no_key key v.manifest, k) in
    let gone : contains_key key (synced h v out disk).0.manifest ≡ false =
      ground (arith, synced-keys h v out disk key, fresh) in
    rw busy (synced-orphan h v out disk key t k gone s other e, gone)
