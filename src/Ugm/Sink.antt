-- ===== src/Ugm/Sink.antt =====
-- The sink of a module (crates/ultragraph/src/ugm.rs, `sink_idx`).
use entheai.Base.{
  ℕ, zero, suc, ◌≤◌, ◌<◌, ◌^◌, ◌%◌, ◌≡◌, ap, inl, inr, Bool, false, some, List, length, any, ◌==◌,
  arith, Bool-cases,
}
use entheai.Ugm.{UgmUltraEdge, UgmFile, last_free, sink_idx}
use native.Mathlib.Nat.{mod-eq_of_lt}

abbrev pub has_outgoing : List UgmUltraEdge → ℕ → Bool
has_outgoing es i = any (λ e. e.src_idx == i) es

last_free-IsHighest :
    (n : ℕ) (es : List UgmUltraEdge) (i : ℕ)
    → n ≤ 2 ^ 32
    → i < n
    → has_outgoing es i ≡ false
    → (j : ℕ) × (last_free n es ≡ some j) × (i ≤ j) × (j < n) × (has_outgoing es j ≡ false)
last_free-IsHighest zero es i b h free = elim h [ ]
last_free-IsHighest (suc n) es i b h free =
    let same : has_outgoing es (n % 2 ^ 32) ≡ has_outgoing es n =
      ap (has_outgoing es) (mod-eq_of_lt (omega arith)) in
    elim (Bool-cases (has_outgoing es n)) [
      | inl busy ↦
          (let other : i < n = ground (arith, busy, free) in
            let (j, e, lo, hi, k) = last_free-IsHighest n es i (omega arith) other free in
            (j, ground (arith, same, busy, e), lo, omega arith, k))
      | inr idle ↦ (n, ground (arith, same, idle), omega arith, omega arith, idle)
    ]

-- In a module of at most 2^32 trees where some tree `i` has no outgoing edge, `sink_idx` is the index
-- of a tree with no outgoing edge, and no lower than `i`: it is the highest such index.
pub sink_idx-IsHighest :
    (f : UgmFile) (i : ℕ)
    → length f.trees ≤ 2 ^ 32
    → i < length f.trees
    → has_outgoing f.ultra_edges i ≡ false
    → (i ≤ sink_idx f)
      × (sink_idx f < length f.trees)
      × (has_outgoing f.ultra_edges (sink_idx f) ≡ false)
unfolding sink_idx
sink_idx-IsHighest f i b h free =
    let (j, e, lo, hi, k) = last_free-IsHighest (length f.trees) f.ultra_edges i b h free in
    rw e (lo, hi, k)
