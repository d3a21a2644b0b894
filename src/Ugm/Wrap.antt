-- ===== src/Ugm/Wrap.antt =====
-- The bounds check of the weights (crates/ultragraph/src/ugm.rs, `from_bytes`).
use entheai.Base.{ℕ, ◌+◌, ◌-◌, ◌*◌, ◌≤◌, ◌<◌, ◌^◌, ◌≡◌, ◌≢◌, List, length, arith}
use entheai.Ugm.{invalid, panics, slice, kind_dense, UgmTree, read_weight}

-- Where the weights' end is a 64-bit number, reading the weights of a tree does not panic, and it is
-- refused as invalid data just when the tree is dense and the end lies behind the end of the file.
pub read_weight-refused :
    (bytes : List ℕ) (c : ℕ) (t : UgmTree)
    → c + t.out_dim * t.in_dim + t.out_dim * 4 < 2 ^ 64
    → (read_weight bytes c t ≢ panics)
      × (t.kind ≡ kind_dense
          → length bytes < c + t.out_dim * t.in_dim + t.out_dim * 4
          → read_weight bytes c t ≡ invalid)
      × (read_weight bytes c t ≡ invalid
          → (t.kind ≡ kind_dense) × (length bytes < c + t.out_dim * t.in_dim + t.out_dim * 4))
unfolding read_weight slice
read_weight-refused bytes c t h = ground arith

-- The bounds check is passed wrongly where its sum wraps: for a dense tree of 2^32 - 2 inputs and as many
-- outputs, whose weights start at byte 4 or later within a file of less than 2^63 bytes, reading the
-- weights panics, though the weights do not fit in the file.
pub read_weight-wraps :
    (bytes : List ℕ) (c : ℕ) (t : UgmTree)
    → t.kind ≡ kind_dense
    → t.in_dim ≡ 2 ^ 32 - 2
    → t.out_dim ≡ 2 ^ 32 - 2
    → 4 ≤ c
    → c ≤ length bytes
    → length bytes < 2 ^ 63
    → (read_weight bytes c t ≡ panics) × (length bytes < c + t.out_dim * t.in_dim + t.out_dim * 4)
unfolding read_weight slice
read_weight-wraps bytes c t k i o lo hi len = ground (arith, k, i, o, lo, hi, len)
