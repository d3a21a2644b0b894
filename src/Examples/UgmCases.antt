-- ===== src/Examples/UgmCases.antt =====
-- The `.ugm` reader at concrete inputs (crates/ultragraph/src/ugm.rs).
use entheai.Base.{ℕ, ◌≡◌, refl, List, [], ◌∷◌, ◌++◌, some, none, All, arith}
use entheai.Ugm.{
  ok, UgmTree, UgmFile, magic, u16_at, u32_at, index, slice, read_tree, read_trees, read_edges,
  read_weight, read_weights, from_bytes,
}
use entheai.Ugm.Utf8.{is_utf8}
use entheai.Ugm.Weights.{IsLoaded, from_bytes-IsLoaded}

abbrev small : UgmTree
small = record {
  kind = 0;
  act = 0;
  in_dim = 2;
  out_dim = 1;
  name = 65 ∷ [];
  w_scale = 0;
  wq = none;
  bias = none;
}

-- A header, one row for `small` and its two weights and one bias.
abbrev one_tree : List ℕ
one_tree =
    magic
    ++ (1 ∷ 0 ∷ 0 ∷ 0 ∷ 1 ∷ 0 ∷ 0 ∷ 0 ∷ 0 ∷ 0 ∷ 0 ∷ 0 ∷ 32 ∷ 0 ∷ 0 ∷ 0 ∷ 49 ∷ 0 ∷ 0 ∷ 0 ∷ 49 ∷ 0 ∷ 0
        ∷ 0 ∷ 6 ∷ 0 ∷ 0 ∷ 0 ∷ [])
    ++ (0 ∷ 0 ∷ 2 ∷ 0 ∷ 0 ∷ 0 ∷ 1 ∷ 0 ∷ 0 ∷ 0 ∷ 1 ∷ 0 ∷ 65 ∷ 0 ∷ 0 ∷ 0 ∷ 0 ∷ [])
    ++ (7 ∷ 9 ∷ 0 ∷ 0 ∷ 128 ∷ 63 ∷ [])

abbrev one_file : UgmFile
one_file = record {
  trees = record small { wq = some (7 ∷ 9 ∷ []); bias = some (0x3F800000 ∷ []) } ∷ [];
  ultra_edges = [];
}

from_bytes-one_tree : from_bytes one_tree ≡ ok one_file
unfolding from_bytes read_trees read_tree read_edges read_weights read_weight u16_at u32_at index
    slice is_utf8
from_bytes-one_tree = refl

from_bytes-IsLoaded_example :
    (u32_at one_tree 8 ≡ ok 1) × (u32_at one_tree 12 ≡ ok 0) × All IsLoaded one_file.trees
from_bytes-IsLoaded_example =
    from_bytes-IsLoaded one_tree one_file (ground arith) from_bytes-one_tree
