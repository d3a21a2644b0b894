-- ===== src/Examples/TernaryCases.antt =====
-- The packed codes at concrete inputs (crates/ternary/src/codes.rs, crates/ultragraph/src/pack.rs).
use entheai.Base.{ℕ, ◌+◌, ◌/◌, ◌≡◌, some, List, [], ◌∷◌, length, arith}
use entheai.Ternary.{pack_ternary, unpack_ternary, ℤ, pos, negsuc}
use entheai.Ternary.Bytes.{unpack_ternary-pack_ternary}

abbrev seven : List ℤ
seven = pos 1 ∷ negsuc 0 ∷ pos 0 ∷ pos 0 ∷ pos 1 ∷ negsuc 0 ∷ pos 1 ∷ []

unpack_ternary-pack_ternary_example :
    (bytes : List ℕ) × (pack_ternary seven ≡ some bytes)
    × (unpack_ternary bytes (length seven) ≡ seven)
    × (length bytes ≡ (length seven + 4) / 5)
unpack_ternary-pack_ternary_example = unpack_ternary-pack_ternary seven (ground arith)
