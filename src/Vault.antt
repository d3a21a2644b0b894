-- ===== src/Vault.antt =====
-- crates/obsidian/src/writer.rs: the writer of generated notes into a vault. A path and a file are
-- their UTF-8 bytes. The file system is a list of files by location, and `Host` says which writes
-- and removals it lets through, what the repository holds, the time stamp and the JSON text of a
-- manifest; directories and links are not modelled.
pub mod Confined
pub mod Sync
pub mod Orphans
use Prim.Native.Nat.{bit_xor}
use entheai.Base.{
  ℕ, zero, suc, ◌*◌, ◌%◌, ◌^◌, String, Bool, true, false, not, ◌&&◌, ◌||◌, Option, none, some, List,
  [], ◌∷◌, ◌++◌, map, ◌==◌, if◌then◌else◌, ◌>>=◌, nat_eq, all, Eq,
}
use entheai.Base.Assoc.{lookup, insert, remove, contains_key}
use entheai.Base.Text.{codes, starts_with}
use entheai.Base.Paths.{
  Component, root_dir, cur_dir, parent_dir, normal, components, join, list_eq, component_eq,
}

pub record VaultNote : Type 0 where
  pub rel_path : List ℕ
  pub markdown : List ℕ

pub record AssetRef : Type 0 where
  pub repo_rel : List ℕ
  pub vault_rel : List ℕ

pub record RenderOutput : Type 0 where
  pub notes : List VaultNote
  pub assets : List AssetRef

-- A map from keys to hashes, in the order of insertion.
abbrev pub Manifest : Type 0
Manifest = List (List ℕ × ℕ)

abbrev pub Disk : Type 0
Disk = List (List Component × List ℕ)

pub record VaultWriter : Type 0 where
  pub subtree : List ℕ
  pub manifest : Manifest
  pub last_changed : List (List ℕ)

pub record Host : Type 0 where
  pub can_write : List Component → Bool
  pub can_remove : List Component → Bool
  pub read : List ℕ → Option (List ℕ)
  pub stamp : List ℕ
  pub to_json : Manifest → List ℕ
  pub from_json : List ℕ → Option Manifest

abbrev pub list_empty {ℓ} : {A : Type ℓ} → List A → Bool
list_empty [] = true
list_empty (_ ∷ _) = false

abbrev pub manifest_name : Component
manifest_name = normal (codes ".entheai-sync-manifest.json")

abbrev pub manifest_at : List ℕ → List Component
manifest_at subtree = components subtree ++ manifest_name ∷ []

abbrev pub or_empty : Option Manifest → Manifest
or_empty none = []
or_empty (some m) = m

unfoldable pub load_manifest : Host → List ℕ → Disk → Manifest
load_manifest h subtree disk = or_empty (lookup (manifest_at subtree) disk >>= h.from_json)

unfoldable pub new : Host → List ℕ → Disk → VaultWriter
unfolding load_manifest
new h subtree disk = record {
  subtree = subtree;
  manifest = load_manifest h subtree disk;
  last_changed = [];
}

unfoldable pub rel_key : List ℕ → List ℕ
rel_key p = map (λ c. if c == 92 then b'/' else c) p

-- `str::replace` of the token: `skip` bytes of it are still to be passed over.
unfoldable pub replace_token : List ℕ → List ℕ → ℕ → List ℕ → List ℕ
unfolding starts_with
replace_token token by skip [] = []
replace_token token by (suc skip) (c ∷ s) = replace_token token by skip s
replace_token token by zero (c ∷ s) =
    let plain = replace_token token by zero s in
    let behind = replace_token token by 8 s in
    if starts_with (c ∷ s) token then by ++ behind else c ∷ plain

unfoldable pub stamp_updated : Host → List ℕ → List ℕ
unfolding replace_token
stamp_updated h md = replace_token (codes "{UPDATED}") h.stamp 0 md

abbrev pub fnv1a_from : ℕ → List ℕ → ℕ
fnv1a_from h [] = h
fnv1a_from h (b ∷ bs) = fnv1a_from (bit_xor h b * 0x00000100000001b3 % 2 ^ 64) bs

unfoldable pub fnv1a : List ℕ → ℕ
fnv1a bytes = fnv1a_from 0xcbf29ce484222325 bytes

abbrev pub is_plain : Component → Bool
is_plain (normal _) = true
is_plain cur_dir = true
is_plain _ = false

unfoldable pub safe_target : List ℕ → List ℕ → Option (List Component)
safe_target subtree rel =
    if all is_plain (components rel)
    then some (join (components subtree) (components rel))
    else none

-- The disk after the write, or `none` for an error.
unfoldable pub write_confined : Host → List ℕ → List ℕ → List ℕ → Disk → Option Disk
unfolding safe_target
write_confined h subtree rel bytes disk = do
  target ← safe_target subtree rel
  if h.can_write target then some (insert target bytes disk) else none

-- A file that is not there is no error.
unfoldable pub delete_confined : Host → List ℕ → List ℕ → Disk → Option Disk
unfolding safe_target
delete_confined h subtree rel disk = do
  target ← safe_target subtree rel
  let removed = if h.can_remove target then some (remove target disk) else none
  if contains_key target disk then removed else some disk

-- What a pass of `apply` has done so far.
pub record Pass : Type 0 where
  pub desired : Manifest
  pub changed : List (List ℕ)
  pub disk : Disk

abbrev pub carry : List ℕ → Option ℕ → Manifest → Manifest
carry key none desired = desired
carry key (some prev) desired = insert key prev desired

abbrev pub written : VaultWriter → List ℕ → ℕ → Pass → Option Disk → Pass
written v rel hash p (some disk) = record {
  desired = insert (rel_key rel) hash p.desired;
  changed = p.changed ++ rel ∷ [];
  disk = disk;
}
written v rel hash p none = record p {
  desired = carry (rel_key rel) (lookup (rel_key rel) v.manifest) p.desired;
}

abbrev pub has_hash : Option ℕ → ℕ → Bool
has_hash none hash = false
has_hash (some h) hash = h == hash

-- The body of both loops, for a path, the hash of its source and the bytes to write.
unfoldable pub store : Host → VaultWriter → List ℕ → ℕ → List ℕ → Pass → Pass
unfolding write_confined
store h v rel hash body p =
    if has_hash (lookup (rel_key rel) v.manifest) hash
    then record p { desired = insert (rel_key rel) hash p.desired }
    else written v rel hash p (write_confined h v.subtree rel body p.disk)

abbrev pub store_notes : Host → VaultWriter → List VaultNote → Pass → Pass
store_notes h v [] p = p
store_notes h v (n ∷ ns) p =
    store_notes h v ns (store h v n.rel_path (fnv1a n.markdown) (stamp_updated h n.markdown) p)

-- An asset that cannot be read is passed over.
abbrev pub store_read : Host → VaultWriter → List ℕ → Option (List ℕ) → Pass → Pass
store_read h v rel none p = p
store_read h v rel (some bytes) p = store h v rel (fnv1a bytes) bytes p

abbrev pub store_assets : Host → VaultWriter → List AssetRef → Pass → Pass
store_assets h v [] p = p
store_assets h v (a ∷ as') p =
    store_assets h v as' (store_read h v a.vault_rel (h.read a.repo_rel) p)

abbrev pub or_disk : Disk → Option Disk → Disk
or_disk disk none = disk
or_disk disk (some d) = d

-- The removal of the files of a manifest whose keys are no longer desired.
abbrev pub remove_orphans : Host → List ℕ → Manifest → Manifest → Disk → Disk
remove_orphans h subtree desired [] disk = disk
remove_orphans h subtree desired ((key, hash) ∷ m) disk =
    remove_orphans h subtree desired m
      (if contains_key key desired then disk else or_disk disk (delete_confined h subtree key disk))

abbrev pub is_empty : RenderOutput → Bool
is_empty out = list_empty out.notes && list_empty out.assets

unfoldable pub persist_manifest : Host → VaultWriter → Disk → Disk × Bool
persist_manifest h v disk =
    if h.can_write (manifest_at v.subtree)
    then (insert (manifest_at v.subtree) (h.to_json v.manifest) disk, true)
    else (disk, false)

-- The rest of `apply`, where there is something to do.
unfoldable pub synced : Host → VaultWriter → RenderOutput → Disk → VaultWriter × (Disk × Bool)
unfolding store delete_confined persist_manifest
synced h v out disk =
    let p =
      store_assets h v out.assets
        (store_notes h v out.notes (record { desired = []; changed = []; disk = disk })) in
    let cleared = remove_orphans h v.subtree p.desired v.manifest p.disk in
    let w = record v { manifest = p.desired; last_changed = p.changed } in
    (w, persist_manifest h w cleared)

-- `VaultWriter::apply`: the writer and the disk afterwards, and false for an error.
unfoldable pub apply : Host → VaultWriter → RenderOutput → Disk → VaultWriter × (Disk × Bool)
unfolding synced
apply h v out disk =
    if is_empty out && list_empty v.manifest
    then (record v { last_changed = [] }, (disk, true))
    else synced h v out disk
