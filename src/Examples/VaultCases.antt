-- ===== src/Examples/VaultCases.antt =====
-- The vault writer at concrete inputs (crates/obsidian/src/writer.rs).
use entheai.Base.{◌≡◌, refl, true, false, none, List, [], ◌∷◌, nat_eq}
use entheai.Base.Text.{codes}
use entheai.Base.Assoc.{lookup}
use entheai.Base.Paths.{Component, root_dir, normal, components, split, list_eq, component_eq}
use entheai.Vault.{Host, VaultWriter, RenderOutput, Disk, apply}
use entheai.Vault.Confined.{inside, apply-confined}

abbrev open_host : Host
open_host = record {
  can_write = λ _. true;
  can_remove = λ _. true;
  read = λ _. none;
  stamp = codes "0";
  to_json = λ _. codes "json";
  from_json = λ _. none;
}

abbrev one_note : RenderOutput
one_note = record {
  notes = record { rel_path = codes "a/b.md"; markdown = codes "x" } ∷ [];
  assets = [];
}

abbrev escaping : RenderOutput
escaping = record {
  notes = record { rel_path = codes "../b.md"; markdown = codes "x" } ∷ [];
  assets = [];
}

abbrev synced_writer : VaultWriter
synced_writer = record {
  subtree = codes "/v/s";
  manifest = (codes "a/b.md", 0xaf63f54c86021707) ∷ [];
  last_changed = [];
}

abbrev stale_writer : VaultWriter
stale_writer = record synced_writer { manifest = (codes "old.md", 1) ∷ [] }

abbrev old_at : List Component
old_at = root_dir ∷ normal (codes "v") ∷ normal (codes "s") ∷ normal (codes "old.md") ∷ []

abbrev elsewhere : List Component
elsewhere = root_dir ∷ normal (codes "v") ∷ normal (codes "b.md") ∷ []

abbrev some_disk : Disk
some_disk = (old_at, codes "o") ∷ (elsewhere, codes "e") ∷ []

elsewhere-outside : inside (components stale_writer.subtree) elsewhere ≡ false
unfolding components split
elsewhere-outside = refl

apply-confined_example :
    lookup elsewhere (apply open_host stale_writer escaping some_disk).1.0
    ≡ lookup elsewhere some_disk
apply-confined_example =
    apply-confined open_host stale_writer escaping some_disk elsewhere elsewhere-outside
