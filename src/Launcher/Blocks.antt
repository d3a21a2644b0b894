-- ===== src/Launcher/Blocks.antt =====
-- crates/launcher/src/lib.rs: what `merge_shader_block` leaves of the user's text, and when it panics.
use entheai.Base.{
  ℕ, zero, suc, ◌+◌, ◌-◌, ◌≤◌, ◌<◌, ◌≡◌, ◌⊎◌, true, false, refl, sym, ap, ◌∙◌, Option, none, some,
  List, [], ◌∷◌, ◌++◌, take, drop, length, ltb, ltb→lt, arith, Bool-cases, Option-cases, inl, inr,
}
use entheai.Base.Text.{text_eq}
use entheai.Launcher.{
  ConfigAction, created, added, updated, already_current, needs_manual, block_begin, block_end,
  find_text, newline, block, glue, replace_block, merged, merge_shader_block,
}

take-drop : (n : ℕ) (xs : List ℕ) → xs ≡ take n xs ++ drop n xs
take-drop zero xs = refl
take-drop (suc n) [] = refl
take-drop (suc n) (x ∷ xs) = ap (λ (ys : List ℕ). x ∷ ys) (take-drop n xs)

take-nil : (n : ℕ) → take {A = ℕ} n [] ≡ []
take-nil zero = refl
take-nil (suc n) = refl

-- A slice in order, between what is before and behind it.
slice-split :
    (first last : ℕ) (xs : List ℕ)
    → first ≤ last
    → xs ≡ take first xs ++ (take (last - first) (drop first xs) ++ drop last xs)
slice-split zero last xs h =
    take-drop last xs ∙ ap (λ (n : ℕ). take n xs ++ drop last xs) (omega arith)
slice-split (suc first) zero xs h = elim h [ ]
slice-split (suc first) (suc last) [] h =
    ap (λ (ys : List ℕ). ys ++ []) (sym (take-nil (suc last - suc first)))
slice-split (suc first) (suc last) (x ∷ xs) h =
    ap (λ (ys : List ℕ). x ∷ ys)
      (slice-split first last xs (omega (arith, h))
        ∙ ap (λ (n : ℕ). take first xs ++ (take n (drop first xs) ++ drop last xs)) (omega arith))

-- The part of a text from the first begin marker to the end of the first end marker, with what is before
-- it and behind it.
abbrev pub Marked : List ℕ → List ℕ → List ℕ → List ℕ → Type 0
Marked existing before old after =
    (first : ℕ) × (last : ℕ) × (find_text existing block_begin ≡ some first)
    × (find_text existing block_end ≡ some last)
    × (before ≡ take first existing)
    × (old ≡ take (last + length block_end - first) (drop first existing))
    × (after ≡ drop (last + length block_end) existing)
    × (existing ≡ before ++ (old ++ after))

-- What a merge does to the text, with the block that it writes.
abbrev pub Merges : List ℕ → List ℕ → List ℕ × ConfigAction → Type 0
Merges existing new (out, created) = ⊥
Merges existing new (out, needs_manual) = ⊥
Merges existing new (out, already_current) =
    (before : List ℕ) × (old : List ℕ) × (after : List ℕ) × Marked existing before old after
    × (text_eq old new ≡ true)
    × (out ≡ existing)
Merges existing new (out, added) =
    ((find_text existing block_begin ≡ none) ⊎ (find_text existing block_end ≡ none))
    × (out ≡ existing ++ glue existing ++ new ++ newline)
Merges existing new (out, updated) =
    (before : List ℕ) × (old : List ℕ) × (after : List ℕ) × Marked existing before old after
    × (text_eq old new ≡ false)
    × (out ≡ before ++ new ++ after)

abbrev pub MergesOr : List ℕ → List ℕ → Option (List ℕ × ConfigAction) → Type 0
MergesOr existing new none =
    (first : ℕ) × ((last : ℕ) × ((find_text existing block_begin ≡ some first)
        × ((find_text existing block_end ≡ some last) × (last + length block_end < first))))
MergesOr existing new (some x) = Merges existing new x

replace_block-MergesOr :
    (existing new : List ℕ) (first last : ℕ)
    → find_text existing block_begin ≡ some first
    → find_text existing block_end ≡ some last
    → MergesOr existing new (replace_block existing new first (last + length block_end))
replace_block-MergesOr existing new first last b e =
    let stop = last + length block_end in
    let old = take (stop - first) (drop first existing) in
    elim (Bool-cases (ltb stop first)) [
      | inl h ↦ rw (h, replace_block) (first, (last, (b, (e, ltb→lt stop first h))))
      | inr h ↦
          let marked : Marked existing (take first existing) old (drop stop existing) = (
            first,
            last,
            b,
            e,
            refl,
            refl,
            refl,
            slice-split first stop existing (ground (arith, h)),
          ) in
          elim (Bool-cases (text_eq old new)) [
            | inl k ↦
                rw (h, replace_block)
                  (rw k (take first existing, old, drop stop existing, marked, k, refl))
            | inr k ↦
                rw (h, replace_block)
                  (rw k (take first existing, old, drop stop existing, marked, k, refl))
          ]
    ]

-- The merge changes nothing where the part from the first begin marker to the first end marker is the
-- block; it puts the block in place of that part, and keeps what is before and behind it, where it is
-- another; it appends the block where a marker is missing; and it panics only where the first end
-- marker stands wholly before the first begin marker.
pub merge_shader_block-MergesOr :
    (existing shader_path : List ℕ)
    → MergesOr existing (block shader_path) (merge_shader_block existing shader_path)
unfolding merge_shader_block
merge_shader_block-MergesOr existing shader_path =
    let new = block shader_path in
    elim (Option-cases (find_text existing block_begin)) [
      | inl b ↦ rw (b, merged) (inl b, refl)
      | inr (first, b) ↦ elim (Option-cases (find_text existing block_end)) [
        | inl e ↦ rw (b, e, merged) (inr e, refl)
        | inr (last, e) ↦ rw (b, e, merged) (replace_block-MergesOr existing new first last b e)
      ]
    ]
