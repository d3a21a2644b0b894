-- ===== src/Launcher.antt =====
-- crates/launcher/src/lib.rs: `merge_shader_block`, which writes the managed block into the text of a Ghostty
-- configuration. A text is its characters; a slice out of order panics, which is `none`.
pub mod Blocks
use entheai.Base.{
  ℕ, zero, suc, ◌+◌, ◌-◌, String, Bool, true, false, Option, none, some, List, [], ◌∷◌, ◌++◌, take,
  drop, length, ltb, ◌==◌, if◌then◌else◌,
}
use entheai.Base.Text.{codes, starts_with, text_eq}

pub data ConfigAction : Type 0 where
  created added updated already_current needs_manual : ConfigAction

abbrev pub block_begin : List ℕ
block_begin = codes "# >>> entheai raindrop shader — managed by `entheai doctor` >>>"

abbrev pub block_end : List ℕ
block_end = codes "# <<< entheai raindrop shader <<<"

-- `find` of a text: the first place where it stands.
unfoldable pub find_text : List ℕ → List ℕ → Option ℕ
find_text [] p = if starts_with [] p then some 0 else none
find_text (c ∷ s) p =
    let rest = find_text s p in
    if starts_with (c ∷ s) p then some 0 else elim rest [ none ↦ none | some i ↦ some (suc i) ]

abbrev pub newline : List ℕ
newline = 10 ∷ []

unfoldable pub block : List ℕ → List ℕ
block shader_path =
    block_begin ++ newline ++ codes "custom-shader = " ++ shader_path ++ newline ++ block_end

-- The text ends with a newline.
abbrev ends : List ℕ → Bool
ends [] = false
ends (c ∷ []) = c == 10
ends (_ ∷ c ∷ s) = ends (c ∷ s)

-- What separates the block from the text before it.
abbrev pub glue : List ℕ → List ℕ
glue [] = []
glue (c ∷ s) = if ends (c ∷ s) then newline else newline ++ newline

-- The bytes from `first` to `last` are replaced unless they are the block.
abbrev pub replace_block : List ℕ → List ℕ → ℕ → ℕ → Option (List ℕ × ConfigAction)
replace_block existing new first last =
    if ltb last first
    then none
    else if text_eq (take (last - first) (drop first existing)) new
    then some (existing, already_current)
    else some (take first existing ++ new ++ drop last existing, updated)

abbrev pub append_block : List ℕ → List ℕ → List ℕ × ConfigAction
append_block existing new = (existing ++ glue existing ++ new ++ newline, added)

abbrev pub merged : List ℕ → List ℕ → Option ℕ → Option ℕ → Option (List ℕ × ConfigAction)
merged existing new (some first) (some last) =
    replace_block existing new first (last + length block_end)
merged existing new _ _ = some (append_block existing new)

unfoldable pub merge_shader_block : List ℕ → List ℕ → Option (List ℕ × ConfigAction)
unfolding find_text block
merge_shader_block existing shader_path =
    merged existing (block shader_path) (find_text existing block_begin)
      (find_text existing block_end)
