-- ===== src/Vault/Sync.antt =====
-- What a pass of the writer does to its manifest, and that it writes nothing that is current
-- (crates/obsidian/src/writer.rs).
use entheai.Base.{
  ℕ, ◌≡◌, refl, sym, ap, subst, ◌∙◌, Bool, true, false, ◌&&◌, ◌||◌, Option, none, some, List, [],
  ◌∷◌, arith, ◌=?◌, all, nat_eq, inl, inr, Bool-cases, Option-cases,
}
use entheai.Base.Assoc.{lookup, insert, contains_key, lookup-insert}
use entheai.Base.Sets.{member}
use entheai.Base.Paths.{Component, list_eq, component_eq}
use entheai.Vault.{
  Host, VaultWriter, VaultNote, AssetRef, RenderOutput, Manifest, Disk, Pass, write_confined, store,
  store_notes, store_read, store_assets, has_hash, carry, remove_orphans, persist_manifest,
  manifest_at, synced, apply, rel_key, fnv1a, stamp_updated, is_empty, list_empty,
}

-- The keys of what is to be written.
abbrev pub note_keys : List VaultNote → List (List ℕ)
note_keys [] = []
note_keys (n ∷ ns) = rel_key n.rel_path ∷ note_keys ns

abbrev pub asset_keys : List AssetRef → List (List ℕ)
asset_keys [] = []
asset_keys (a ∷ as') = rel_key a.vault_rel ∷ asset_keys as'

module _ (h : Host) (v : VaultWriter) (key : List ℕ) where
  carry-keys :
      (k : List ℕ) (o : Option ℕ) (m : Manifest)
      → contains_key key (carry k o m) ≡ true
      → (contains_key key m || (k =? key)) ≡ true
  carry-keys k none m e = ground (arith, e)
  carry-keys k (some prev) m e = ground (arith, e, lookup-insert k key prev m)

  store-keys :
      (rel : List ℕ) (hash : ℕ) (body : List ℕ) (p : Pass)
      → contains_key key (store h v rel hash body p).desired ≡ true
      → (contains_key key p.desired || (rel_key rel =? key)) ≡ true
  unfolding store
  store-keys rel hash body p e = elim (Option-cases (write_confined h v.subtree rel body p.disk)) [
    | inl o ↦ ground (
      arith,
      e,
      o,
      lookup-insert (rel_key rel) key hash p.desired,
      carry-keys (rel_key rel) (lookup (rel_key rel) v.manifest) p.desired,
    )
    | inr (d, o) ↦ ground (arith, e, o, lookup-insert (rel_key rel) key hash p.desired)
  ]

  store_notes-keys :
      (ns : List VaultNote) (p : Pass)
      → contains_key key (store_notes h v ns p).desired ≡ true
      → (contains_key key p.desired || member key (note_keys ns)) ≡ true
  store_notes-keys [] p e = ground (arith, e)
  store_notes-keys (n ∷ ns) p e =
      let body = stamp_updated h n.markdown in
      ground (
        arith,
        store_notes-keys ns (store h v n.rel_path (fnv1a n.markdown) body p) e,
        store-keys n.rel_path (fnv1a n.markdown) body p,
      )

  store_read-keys :
      (rel : List ℕ) (o : Option (List ℕ)) (p : Pass)
      → contains_key key (store_read h v rel o p).desired ≡ true
      → (contains_key key p.desired || (rel_key rel =? key)) ≡ true
  store_read-keys rel none p e = ground (arith, e)
  store_read-keys rel (some bytes) p e = store-keys rel (fnv1a bytes) bytes p e

  store_assets-keys :
      (xs : List AssetRef) (p : Pass)
      → contains_key key (store_assets h v xs p).desired ≡ true
      → (contains_key key p.desired || member key (asset_keys xs)) ≡ true
  store_assets-keys [] p e = ground (arith, e)
  store_assets-keys (a ∷ xs) p e = ground (
    arith,
    store_assets-keys xs (store_read h v a.vault_rel (h.read a.repo_rel) p) e,
    store_read-keys a.vault_rel (h.read a.repo_rel) p,
  )

pub no_key : (key : List ℕ) (m : Manifest) → list_empty m ≡ true → contains_key key m ≡ false
unfolding lookup
no_key key [] k = refl
no_key key (x ∷ m) k = ground (arith, k)

pub synced-keys :
    (h : Host) (v : VaultWriter) (out : RenderOutput) (disk : Disk) (key : List ℕ)
    → contains_key key (synced h v out disk).0.manifest ≡ true
    → (member key (note_keys out.notes) || member key (asset_keys out.assets)) ≡ true
unfolding synced
synced-keys h v out disk key e =
    let p0 : Pass = record { desired = []; changed = []; disk = disk } in
    let p1 = store_notes h v out.notes p0 in
    ground (
      arith,
      store_assets-keys h v key out.assets p1 e,
      store_notes-keys h v key out.notes p0,
      no_key key [] refl,
    )

-- Nothing else stays in the manifest: after `apply`, whatever failed, each key of the manifest is the key
-- of a note or of an asset of the output.
pub apply-keys :
    (h : Host) (v : VaultWriter) (out : RenderOutput) (disk : Disk) (key : List ℕ)
    → contains_key key (apply h v out disk).0.manifest ≡ true
    → (member key (note_keys out.notes) || member key (asset_keys out.assets)) ≡ true
unfolding apply
apply-keys h v out disk key e = elim (Bool-cases (is_empty out && list_empty v.manifest)) [
  | inl lazy ↦ ground (arith, no_key key v.manifest (ground (arith, lazy)), e, lazy)
  | inr busy ↦
      synced-keys h v out disk key
        (subst (λ (m : Manifest). contains_key key m ≡ true) (ground (arith, busy)) e)
]

-- What is current: its hash stands in the manifest under its key. An asset that cannot be read is
-- passed over.
abbrev pub is_current : Manifest → List ℕ → List ℕ → Bool
is_current m rel bytes = has_hash (lookup (rel_key rel) m) (fnv1a bytes)

abbrev pub asset_current : Manifest → List ℕ → Option (List ℕ) → Bool
asset_current m rel none = false
asset_current m rel (some bytes) = is_current m rel bytes

abbrev pub all_current : Host → Manifest → RenderOutput → Bool
all_current h m out =
    all (λ n. is_current m n.rel_path n.markdown) out.notes
    && all (λ a. asset_current m a.vault_rel (h.read a.repo_rel)) out.assets

module _ (h : Host) (v : VaultWriter) where
  -- A pass that has written nothing, and holds these keys.
  abbrev Idle : Pass → Pass → Type 0
  Idle p q = (q.disk ≡ p.disk) × (q.changed ≡ p.changed)

  Holds : Pass → Pass → (List (List ℕ)) → Type 0
  Holds p q ks =
      (key : List ℕ)
      → (contains_key key p.desired || member key ks) ≡ true
      → contains_key key q.desired ≡ true

  store-Idle :
      (rel bytes body : List ℕ) (p : Pass)
      → is_current v.manifest rel bytes ≡ true
      → store h v rel (fnv1a bytes) body p
        ≡ record p { desired = insert (rel_key rel) (fnv1a bytes) p.desired }
  unfolding store
  store-Idle rel bytes body p e = rw e refl

  store_notes-Idle :
      (ns : List VaultNote) (p : Pass)
      → all (λ n. is_current v.manifest n.rel_path n.markdown) ns ≡ true
      → Idle p (store_notes h v ns p) × Holds p (store_notes h v ns p) (note_keys ns)
  unfolding Holds
  store_notes-Idle [] p e = ((refl, refl), λ key k. ground (arith, k))
  store_notes-Idle (n ∷ ns) p e =
      let body = stamp_updated h n.markdown in
      let q : Pass = record p {
        desired = insert (rel_key n.rel_path) (fnv1a n.markdown) p.desired;
      } in
      let ((d, c), keys) = store_notes-Idle ns q (ground (arith, e)) in
      let e' : store_notes h v (n ∷ ns) p ≡ store_notes h v ns q =
        ap (store_notes h v ns) (store-Idle n.rel_path n.markdown body p (ground (arith, e))) in
      subst (λ (r : Pass). Idle p r × Holds p r (note_keys (n ∷ ns))) (sym e')
        (
          (d, c),
          λ key k. keys key (
              ground
                (arith, k, lookup-insert (rel_key n.rel_path) key (fnv1a n.markdown) p.desired)),
        )

  store_read-Idle :
      (rel : List ℕ) (o : Option (List ℕ)) (p : Pass)
      → asset_current v.manifest rel o ≡ true
      → (hash : ℕ) × (store_read h v rel o p
          ≡ record p { desired = insert (rel_key rel) hash p.desired })
  store_read-Idle rel none p e = ground (arith, e)
  store_read-Idle rel (some bytes) p e = (fnv1a bytes, store-Idle rel bytes bytes p e)

  store_assets-Idle :
      (xs : List AssetRef) (p : Pass)
      → all (λ a. asset_current v.manifest a.vault_rel (h.read a.repo_rel)) xs ≡ true
      → Idle p (store_assets h v xs p) × Holds p (store_assets h v xs p) (asset_keys xs)
  unfolding Holds
  store_assets-Idle [] p e = ((refl, refl), λ key k. ground (arith, k))
  store_assets-Idle (a ∷ xs) p e =
      let (hash, r) = store_read-Idle a.vault_rel (h.read a.repo_rel) p (ground (arith, e)) in
      let q : Pass = record p { desired = insert (rel_key a.vault_rel) hash p.desired } in
      let ((d, c), keys) = store_assets-Idle xs q (ground (arith, e)) in
      subst (λ (r : Pass). Idle p r × Holds p r (asset_keys (a ∷ xs)))
        (sym (ap (store_assets h v xs) r))
        (
          (d, c),
          λ key k.
              keys key (ground (arith, k, lookup-insert (rel_key a.vault_rel) key hash p.desired)),
        )

remove_orphans-none :
    (h : Host) (subtree : List ℕ) (desired m : Manifest) (disk : Disk)
    → all (λ x. contains_key x.0 desired) m ≡ true
    → remove_orphans h subtree desired m disk ≡ disk
remove_orphans-none h subtree desired [] disk e = refl
remove_orphans-none h subtree desired ((key, hash) ∷ m) disk e =
    ground (arith, e, remove_orphans-none h subtree desired m disk)

abbrev pub no_orphans : Manifest → RenderOutput → Bool
no_orphans m out =
    all (λ x. member x.0 (note_keys out.notes) || member x.0 (asset_keys out.assets)) m

no_orphans-all :
    (out : RenderOutput) (desired m : Manifest)
    → no_orphans m out ≡ true
    → ((key : List ℕ)
        → (member key (note_keys out.notes) || member key (asset_keys out.assets)) ≡ true
        → contains_key key desired ≡ true)
    → all (λ x. contains_key x.0 desired) m ≡ true
no_orphans-all out desired [] e keys = refl
no_orphans-all out desired ((key, hash) ∷ m) e keys =
    ground
      (arith, keys key (ground (arith, e)), no_orphans-all out desired m (ground (arith, e)) keys)

pub persist_manifest-other :
    (h : Host) (v : VaultWriter) (disk : Disk) (l : List Component)
    → (manifest_at v.subtree =? l) ≡ false
    → lookup l (persist_manifest h v disk).0 ≡ lookup l disk
unfolding persist_manifest
persist_manifest-other h v disk l e =
    ground (arith, e, lookup-insert (manifest_at v.subtree) l (h.to_json v.manifest) disk)

-- The writer after a pass over what is current.
synced-current :
    (h : Host) (v : VaultWriter) (out : RenderOutput) (disk : Disk)
    → all_current h v.manifest out ≡ true
    → no_orphans v.manifest out ≡ true
    → ((synced h v out disk).0.last_changed ≡ [])
      × ((l : List Component)
          → (manifest_at v.subtree =? l) ≡ false
          → lookup l (synced h v out disk).1.0 ≡ lookup l disk)
unfolding synced Holds
synced-current h v out disk cur none_left =
    let p0 : Pass = record { desired = []; changed = []; disk = disk } in
    let p1 = store_notes h v out.notes p0 in
    let p2 = store_assets h v out.assets p1 in
    let ((d1, c1), k1) = store_notes-Idle h v out.notes p0 (ground (arith, cur)) in
    let ((d2, c2), k2) = store_assets-Idle h v out.assets p1 (ground (arith, cur)) in
    let kept =
      no_orphans-all out p2.desired v.manifest none_left
        (λ key k. k2 key (ground (arith, k, k1 key))) in
    let w : VaultWriter = record v { manifest = p2.desired; last_changed = p2.changed } in
    (
      c2 ∙ c1,
      λ l e.
          persist_manifest-other h w (remove_orphans h v.subtree p2.desired v.manifest p2.disk) l e
          ∙ ap (lookup l)
              (remove_orphans-none h v.subtree p2.desired v.manifest p2.disk kept ∙ d2 ∙ d1),
    )

-- What is current is not written again: where every note and asset of the output is current and the
-- manifest has no key but theirs, `apply` reports no change, and every file but that of the manifest stays
-- as it was.
pub apply-current :
    (h : Host) (v : VaultWriter) (out : RenderOutput) (disk : Disk)
    → all_current h v.manifest out ≡ true
    → no_orphans v.manifest out ≡ true
    → ((apply h v out disk).0.last_changed ≡ [])
      × ((l : List Component)
          → (manifest_at v.subtree =? l) ≡ false
          → lookup l (apply h v out disk).1.0 ≡ lookup l disk)
unfolding apply
apply-current h v out disk cur none_left =
    elim (Bool-cases (is_empty out && list_empty v.manifest)) [
      | inl lazy ↦ rw lazy (refl, λ l k. refl)
      | inr busy ↦ rw busy (synced-current h v out disk cur none_left)
    ]
