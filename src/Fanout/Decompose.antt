-- ===== src/Fanout/Decompose.antt =====
-- crates/orchestrator/src/lib.rs: `parse_decomposition` and `ensure_coder`, on the characters of the
-- reply. The parser of JSON is a parameter.
use entheai.Base.{
  ℕ, zero, suc, ◌+◌, ◌-◌, ◌≤◌, ◌≡◌, refl, String, Bool, true, false, not, ◌&&◌, Option, none, some,
  List, [], ◌∷◌, ◌++◌, take, drop, keep, any, all, length, length-append, ltb, if◌then◌else◌, arith,
  Bool-cases, inl, inr,
}
use entheai.Base.Text.{find, rfind, trim, codes, text_eq, to_ascii_lowercase, ascii_lower}
use entheai.Fanout.{SubTask}

-- `trim().is_empty()`.
abbrev blank : List ℕ → Bool
blank [] = true
blank (_ ∷ _) = false

abbrev pub is_blank : String → Bool
is_blank s = blank (trim (codes s))

abbrev between : List ℕ → ℕ → ℕ → Option (List ℕ)
between s start last =
    if ltb start last then some (take (suc last - start) (drop start s)) else none

unfoldable pub extract_json_array : List ℕ → Option (List ℕ)
extract_json_array s = elim (find b'[' s) [
  | none ↦ none
  | some start ↦ elim (rfind b']' s) [ none ↦ none | some last ↦ between s start last ]
]

abbrev pub or_else : {A : Type 0} → A → Option A → A
or_else a none = a
or_else a (some b) = b

abbrev pub usable : SubTask → Bool
usable s = not (is_blank s.role) && not (is_blank s.task)

module _ (from_str : List ℕ → Option (List SubTask)) where
  unfoldable pub parse_decomposition : List ℕ → ℕ → List SubTask
  unfolding extract_json_array
  parse_decomposition content max =
      let trimmed = trim content in
      let slice = or_else trimmed (extract_json_array trimmed) in
      take max (keep usable (or_else [] (from_str slice)))

abbrev pub is_coder : SubTask → Bool
is_coder s = text_eq (to_ascii_lowercase (codes s.role)) (codes "coder")

unfoldable pub ensure_coder : List SubTask → String → List SubTask
ensure_coder subtasks task =
    if any is_coder subtasks
    then subtasks
    else subtasks ++ record { role = "coder"; task = task } ∷ []

length-take_le : {A : Type 0} (n : ℕ) (xs : List A) → length (take n xs) ≤ n
length-take_le zero xs = omega arith
length-take_le (suc n) [] = omega arith
length-take_le (suc n) (x ∷ xs) = omega (arith, length-take_le n xs)

all-take-keep :
    {A : Type 0} (p : A → Bool) (n : ℕ) (xs : List A) → all p (take n (keep p xs)) ≡ true
all-take-keep p zero xs = refl
all-take-keep p (suc n) [] = refl
all-take-keep p (suc n) (x ∷ xs) = elim (Bool-cases (p x)) [
  | inl e ↦ rw e (rw e (all-take-keep p n xs))
  | inr e ↦ rw e (all-take-keep p (suc n) xs)
]

any-append_last :
    {A : Type 0} (p : A → Bool) (xs : List A) (x : A) → p x ≡ true → any p (xs ++ x ∷ []) ≡ true
any-append_last p [] x h = ground (arith, h)
any-append_last p (y ∷ xs) x h = ground (arith, any-append_last p xs x h)

whole_task-is_coder : (task : String) → is_coder (record { role = "coder"; task = task }) ≡ true
unfolding to_ascii_lowercase ascii_lower
whole_task-is_coder task = refl

-- A list with a coder stays as it is; any other gets one at its end.
ensure_coder-any :
    (ts : List SubTask) (task : String)
    → (any is_coder (ensure_coder ts task) ≡ true) × (length (ensure_coder ts task) ≤ length ts + 1)
unfolding ensure_coder
ensure_coder-any ts task =
    let whole : SubTask = record { role = "coder"; task = task } in
    elim (Bool-cases (any is_coder ts)) [
      | inl e ↦ rw e (e, omega arith)
      | inr e ↦ rw e (
        any-append_last is_coder ts whole (whole_task-is_coder task),
        omega (arith, length-append ts (whole ∷ [])),
      )
    ]

-- Whatever the model replies, a decomposition has at most `max` sub-tasks, each with a role and a
-- task that are not blank; and the list that the fan-out works on has a coder and is at most one
-- longer.
pub ensure_coder-parse_decomposition :
    (from_str : List ℕ → Option (List SubTask)) (content : List ℕ) (max : ℕ) (task : String)
    → (length (parse_decomposition from_str content max) ≤ max)
      × ((all usable (parse_decomposition from_str content max) ≡ true)
          × ((any is_coder (ensure_coder (parse_decomposition from_str content max) task) ≡ true)
              × (length (ensure_coder (parse_decomposition from_str content max) task) ≤ max + 1)))
unfolding parse_decomposition
ensure_coder-parse_decomposition from_str content max task =
    let slice = or_else (trim content) (extract_json_array (trim content)) in
    let parsed = or_else [] (from_str slice) in
    let bounded = length-take_le max (keep usable parsed) in
    let (has_coder, longer) = ensure_coder-any (take max (keep usable parsed)) task in
    (bounded, (all-take-keep usable max parsed, (has_coder, omega (arith, bounded, longer))))
