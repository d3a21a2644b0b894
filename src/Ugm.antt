-- ===== src/Ugm.antt =====
-- crates/ultragraph/src/ugm.rs: the reader of the `.ugm` format and the sink of a module.
-- A file is a list of bytes. `usize` has 64 bits and wraps, as in a release build; a slice or an index
-- out of range panics. A 32-bit float is kept as its bit pattern, a name as its UTF-8 bytes. The
-- forward interpreter `run` is not modelled.
pub mod Utf8
pub mod Weights
pub mod Wrap
pub mod Sink
use entheai.Base.{
  ℕ, zero, suc, ◌+◌, ◌-◌, ◌*◌, ◌%◌, ◌^◌, Bool, true, false, not, Option, none, some, List, [], ◌∷◌,
  ◌++◌, length, take, drop, get_elem?, any, ltb, ◌==◌, if◌then◌else◌,
}
use Utf8.{is_utf8}

-- A value, `io::ErrorKind::InvalidData`, or a panic.
pub data Outcome {ℓ} (A : Type ℓ) : Type ℓ where
  ok : A → Outcome A
  invalid panics : Outcome A

infixl 5 ◌>>=◌
abbrev pub ◌>>=◌ {ℓ κ} : {A : Type ℓ} {B : Type κ} → Outcome A → (A → Outcome B) → Outcome B
ok a >>= f = f a
invalid >>= f = invalid
panics >>= f = panics

abbrev pub usize : ℕ → ℕ
usize n = n % 2 ^ 64

-- `&bytes[a..b]`.
unfoldable pub slice : List ℕ → ℕ → ℕ → Outcome (List ℕ)
slice bytes a b =
    if ltb b a
    then panics
    else if ltb (length bytes) b
    then panics
    else ok (take (b - a) (drop a bytes))

abbrev or_panic : Option ℕ → Outcome ℕ
or_panic none = panics
or_panic (some b) = ok b

unfoldable pub index : List ℕ → ℕ → Outcome ℕ
index bytes i = or_panic (get_elem? bytes i)

-- `from_le_bytes`.
abbrev pub le_bytes : List ℕ → ℕ
le_bytes [] = 0
le_bytes (b ∷ bs) = b + 256 * le_bytes bs

unfoldable pub u16_at : List ℕ → ℕ → Outcome ℕ
u16_at bytes c = do s ← slice bytes c (usize (c + 2)); ok (le_bytes s)

unfoldable pub u32_at : List ℕ → ℕ → Outcome ℕ
u32_at bytes c = do s ← slice bytes c (usize (c + 4)); ok (le_bytes s)

abbrev pub magic : List ℕ
magic = 0x55 ∷ 0x47 ∷ 0x4D ∷ 0x01 ∷ []

abbrev pub kind_dense : ℕ
kind_dense = 0

pub record UgmTree : Type 0 where
  pub kind : ℕ
  pub act : ℕ
  pub in_dim : ℕ
  pub out_dim : ℕ
  pub name : List ℕ
  pub w_scale : ℕ
  pub wq : Option (List ℕ)
  pub bias : Option (List ℕ)

pub record UgmUltraEdge : Type 0 where
  pub src_idx : ℕ
  pub dst_idx : ℕ
  pub kind : ℕ

pub record UgmFile : Type 0 where
  pub trees : List UgmTree
  pub ultra_edges : List UgmUltraEdge

-- One row of the tree table, and the cursor behind it.
unfoldable pub read_tree : List ℕ → ℕ → Outcome (UgmTree × ℕ)
unfolding is_utf8
read_tree bytes c = if ltb (length bytes) (usize (c + 16)) then invalid else do
  kind ← index bytes c
  act ← index bytes (usize (c + 1))
  let c2 = usize (c + 2)
  in_dim ← u32_at bytes c2
  out_dim ← u32_at bytes (usize (c2 + 4))
  let c10 = usize (c2 + 8)
  name_len ← u16_at bytes c10
  let c12 = usize (c10 + 2)
  if ltb (length bytes) (usize (c12 + name_len + 4)) then invalid else do
    name ← slice bytes c12 (usize (c12 + name_len))
    if not (is_utf8 name) then invalid else do
      let cn = usize (c12 + name_len)
      w_scale ← u32_at bytes cn
      ok (
        record {
          kind = kind;
          act = act;
          in_dim = in_dim;
          out_dim = out_dim;
          name = name;
          w_scale = w_scale;
          wq = none;
          bias = none;
        },
        usize (cn + 4),
      )

unfoldable pub read_trees : ℕ → List ℕ → ℕ → Outcome (List UgmTree)
read_trees zero bytes c = ok []
read_trees (suc n) bytes c = do
  r ← read_tree bytes c
  rest ← read_trees n bytes r.1
  ok (r.0 ∷ rest)

unfoldable pub read_edges : ℕ → List ℕ → ℕ → Outcome (List UgmUltraEdge)
read_edges zero bytes c = ok []
read_edges (suc n) bytes c =
    let rest = read_edges n bytes (usize (c + 9)) in
    if ltb (length bytes) (usize (c + 9)) then invalid else do
      src_idx ← u32_at bytes c
      dst_idx ← u32_at bytes (usize (c + 4))
      kind ← index bytes (usize (c + 8))
      es ← rest
      ok (record { src_idx = src_idx; dst_idx = dst_idx; kind = kind } ∷ es)

-- `chunks_exact(4)`, each read as the bits of a float.
abbrev pub floats : List ℕ → List ℕ
floats (a ∷ b ∷ c ∷ d ∷ rest) = le_bytes (a ∷ b ∷ c ∷ d ∷ []) ∷ floats rest
floats _ = []

-- The weights of one tree, and the cursor behind them. An `i8` is kept as its byte.
unfoldable pub read_weight : List ℕ → ℕ → UgmTree → Outcome (UgmTree × ℕ)
read_weight bytes c t =
    let wq_len = usize (t.out_dim * t.in_dim) in
    let bias_len = usize (t.out_dim * 4) in
    if not (t.kind == kind_dense)
    then ok (t, c)
    else if ltb (length bytes) (usize (c + wq_len + bias_len))
    then invalid
    else do
      wq ← slice bytes c (usize (c + wq_len))
      let cw = usize (c + wq_len)
      bias_slice ← slice bytes cw (usize (cw + bias_len))
      ok (record t { wq = some wq; bias = some (floats bias_slice) }, usize (cw + bias_len))

unfoldable pub read_weights : List ℕ → ℕ → List UgmTree → Outcome (List UgmTree)
read_weights bytes c [] = ok []
read_weights bytes c (t ∷ ts) = do
  r ← read_weight bytes c t
  rest ← read_weights bytes r.1 ts
  ok (r.0 ∷ rest)

abbrev pub same_bytes : List ℕ → List ℕ → Bool
same_bytes [] [] = true
same_bytes (a ∷ as') (b ∷ bs) = if a == b then same_bytes as' bs else false
same_bytes _ _ = false

unfoldable pub from_bytes : List ℕ → Outcome UgmFile
from_bytes bytes = if ltb (length bytes) 32 then invalid else do
  head ← slice bytes 0 4
  if not (same_bytes head magic) then invalid else do
    version ← u16_at bytes 4
    if not (version == 1) then invalid else do
      flags ← u16_at bytes 6
      n_trees ← u32_at bytes 8
      n_ultra_edges ← u32_at bytes 12
      trees_offset ← u32_at bytes 16
      ue_offset ← u32_at bytes 20
      weights_offset ← u32_at bytes 24
      weights_size ← u32_at bytes 28
      trees ← read_trees n_trees bytes trees_offset
      ultra_edges ← read_edges n_ultra_edges bytes ue_offset
      done ← read_weights bytes weights_offset trees
      ok (record { trees = done; ultra_edges = ultra_edges })

-- The loop of `sink_idx` from index `i - 1` down; an index is compared as a `u32`.
abbrev pub last_free : ℕ → List UgmUltraEdge → Option ℕ
last_free zero es = none
last_free (suc i) es =
    let below = last_free i es in if any (λ e. e.src_idx == i % 2 ^ 32) es then below else some i

abbrev or_last : Option ℕ → ℕ → ℕ
or_last (some i) n = i
or_last none n = if n == 0 then 0 else n - 1

unfoldable pub sink_idx : UgmFile → ℕ
sink_idx f = or_last (last_free (length f.trees) f.ultra_edges) (length f.trees)
