-- ===== src/Tools/Edited.antt =====
-- crates/tools/src/fs.rs: what `edit_file` does to a file.
use mathlib.Core.List.{append-nil}
use entheai.Base.{
  ℕ, zero, suc, ◌+◌, ◌-◌, ◌≤◌, ◌<◌, ◌≡◌, ◌⊎◌, inl, inr, refl, sym, ap, ◌∙◌, Bool, true, false,
  Option, none, some, List, [], ◌∷◌, ◌++◌, length, drop, ltb, ◌==◌, ==_iff, if◌then◌else◌, arith,
  Bool-cases,
}
use entheai.Base.Text.{starts_with}
use entheai.Base.Paths.{Component}
use entheai.Tools.{resolve_in_root}
use entheai.Tools.Edit.{
  Text, Disk, ToolError, path_escape, missing_arg, io, not_found, not_unique, Reply, done, error,
  count_from, count_matches, replace_first, written, edit_content, edit_at, edit_file,
}

-- No match of a text starts in the first part.
abbrev pub NoMatch : Text → Text → Text → Type 0
NoMatch p [] rest = Unit
NoMatch p (c ∷ before) rest = (starts_with (c ∷ (before ++ rest)) p ≡ false) × NoMatch p before rest

-- A text stands in another once, no match of it starts before, and none is found behind.
abbrev pub StandsIn : Text → Text → Text → Text → Type 0
StandsIn p content before after =
    (content ≡ before ++ (p ++ after))
    × NoMatch p before (p ++ after)
    × ((p ≡ []) ⊎ (count_matches p after ≡ 0))

starts_with-append : (s p : Text) → starts_with s p ≡ true → s ≡ p ++ drop (length p) s
unfolding starts_with
starts_with-append s [] h = refl
starts_with-append [] (d ∷ p) h = absurd (ground (arith, h))
starts_with-append (c ∷ s) (d ∷ p) h = ground (arith, h, ==_iff c d, starts_with-append s p)

count_from-drop : (p : Text) (k : ℕ) (s : Text) → count_from p k s ≡ count_from p 0 (drop k s)
unfolding count_from
count_from-drop p zero s = refl
count_from-drop p (suc k) [] = refl
count_from-drop p (suc k) (c ∷ s) = count_from-drop p k s

count_from-cons :
    (p : Text) (c : ℕ) (s : Text)
    → count_from p 0 (c ∷ s)
      ≡ (if starts_with (c ∷ s) p then 1 else 0)
        + count_from p (if starts_with (c ∷ s) p then length p - 1 else 0) s
unfolding count_from
count_from-cons p c s = refl

-- Where there is one match, it is replaced.
one-StandsIn :
    (d : ℕ) (p q s : Text)
    → count_from (d ∷ p) 0 s ≡ 1
    → (before : Text) × (after : Text) × StandsIn (d ∷ p) s before after
      × (replace_first (d ∷ p) q s ≡ before ++ (q ++ after))
unfolding count_from replace_first count_matches
one-StandsIn d p q [] h = absurd (omega (arith, h))
one-StandsIn d p q (c ∷ s) h = elim (Bool-cases (starts_with (c ∷ s) (d ∷ p))) [
  | inl here ↦
      let none_behind : count_from (d ∷ p) 0 (drop (length p) s) ≡ 0 =
        let step : count_from (d ∷ p) 0 (c ∷ s) ≡ 1 + count_from (d ∷ p) (length (d ∷ p) - 1) s =
          count_from-cons (d ∷ p) c s ∙ rw here refl in
        let covered : length (d ∷ p) - 1 ≡ length p = omega arith in
        let moved : count_from (d ∷ p) (length (d ∷ p) - 1) s
            ≡ count_from (d ∷ p) 0 (drop (length p) s) =
          ap (λ (k : ℕ). count_from (d ∷ p) k s) covered ∙ count_from-drop (d ∷ p) (length p) s in
        omega (arith, h, step, moved) in
      (
        [],
        drop (length p) s,
        (starts_with-append (c ∷ s) (d ∷ p) here, tt, inr none_behind),
        rw here refl,
      )
  | inr away ↦
      let step : count_from (d ∷ p) 0 (c ∷ s) ≡ 0 + count_from (d ∷ p) 0 s =
        count_from-cons (d ∷ p) c s ∙ rw away refl in
      let (before, after, (split, first, behind), replaced) =
        one-StandsIn d p q s (omega (arith, h, step)) in
      (
        c ∷ before,
        after,
        (
          ap (λ (t : Text). c ∷ t) split,
          (ap (λ (t : Text). starts_with (c ∷ t) (d ∷ p)) (sym split) ∙ away, first),
          behind,
        ),
        rw away (ap (λ (t : Text). c ∷ t) replaced),
      )
]

count_matches-StandsIn :
    (p q s : Text)
    → count_matches p s ≡ 1
    → (before : Text) × (after : Text) × StandsIn p s before after
      × (replace_first p q s ≡ before ++ (q ++ after))
unfolding count_matches replace_first
count_matches-StandsIn [] q [] h = ([], [], (refl, tt, inl refl), sym (append-nil q))
count_matches-StandsIn [] q (c ∷ s) h = absurd (omega (arith, h))
count_matches-StandsIn (d ∷ p) q s h = one-StandsIn d p q s h

-- A text that is not counted does not stand in another.
zero-NoMatch : (p s : Text) → count_matches p s ≡ 0 → NoMatch p s []
unfolding count_matches
zero-NoMatch [] [] h = absurd (omega (arith, h))
zero-NoMatch [] (c ∷ s) h = absurd (omega (arith, h))
zero-NoMatch (d ∷ p) [] h = tt
zero-NoMatch (d ∷ p) (c ∷ s) h = elim (Bool-cases (starts_with (c ∷ s) (d ∷ p))) [
  | inl here ↦
      let step : count_from (d ∷ p) 0 (c ∷ s) ≡ 1 + count_from (d ∷ p) (length (d ∷ p) - 1) s =
        count_from-cons (d ∷ p) c s ∙ rw here refl in
      absurd (omega (arith, h, step))
  | inr away ↦
      let step : count_from (d ∷ p) 0 (c ∷ s) ≡ 0 + count_from (d ∷ p) 0 s =
        count_from-cons (d ∷ p) c s ∙ rw away refl in
      (
        ap (λ (t : Text). starts_with (c ∷ t) (d ∷ p)) (append-nil s) ∙ away,
        zero-NoMatch (d ∷ p) s (omega (arith, h, step)),
      )
]

module _ (disk : Disk) where
  open disk use {State, view, read_to_string, write}

  -- The file that a path resolves to is written, with the new text for the old one at its first place, where
  -- none is counted behind; the flag says whether the write succeeds.
  abbrev pub Writes : Option (List Component) → Text → Text → State → Bool → State → Type 0
  Writes found old_str new_str w fine w' =
      (p : List Component) × (before : Text) × (after : Text) × (content : Text) × (found ≡ some p)
      × (read_to_string w p ≡ some content)
      × StandsIn old_str content before after
      × (write w p (before ++ (new_str ++ after)) ≡ (fine, w'))

  -- The file that a path resolves to, and what it holds.
  abbrev pub Holds : Option (List Component) → State → (Text → Type 0) → Type 0
  Holds found w P =
      (p : List Component) × (content : Text) × (found ≡ some p)
      × (read_to_string w p ≡ some content)
      × P content

  -- Why a call gives an error before it writes.
  abbrev pub Refuses : Option (List Component) → Text → State → ToolError → Type 0
  Refuses found old_str w missing_arg = ⊥
  Refuses found old_str w path_escape = found ≡ none
  Refuses found old_str w io = (p : List Component) × (found ≡ some p) × (read_to_string w p ≡ none)
  Refuses found old_str w not_found = Holds found w (λ content. NoMatch old_str content [])
  Refuses found old_str w not_unique = Holds found w (λ content. 1 < count_matches old_str content)

  -- What a call may come to.
  abbrev pub Outcome : Option (List Component) → Text → Text → State → Reply × State → Type 0
  Outcome found old_str new_str w r =
      ((r.0 ≡ done []) × Writes found old_str new_str w true r.1)
      ⊎ (((e : ToolError) × Refuses found old_str w e × (r ≡ (error e, w)))
          ⊎ ((r.0 ≡ error io) × Writes found old_str new_str w false r.1))

  written-Outcome :
      (p : List Component) (old_str new_str content : Text) (w : State) (o : Bool × State)
      → read_to_string w p ≡ some content
      → count_matches old_str content ≡ 1
      → write w p (replace_first old_str new_str content) ≡ o
      → Outcome (some p) old_str new_str w (written disk o)
  written-Outcome p old_str new_str content w (fine, w') given one e =
      let (before, after, stands, replaced) = count_matches-StandsIn old_str new_str content one in
      let made : write w p (before ++ (new_str ++ after)) ≡ (fine, w') =
        ap (write w p) (sym replaced) ∙ e in
      by_answer fine w' (p, before, after, content, refl, given, stands, made)
    where
      by_answer :
          (answer : Bool) (w' : State)
          → Writes (some p) old_str new_str w answer w'
          → Outcome (some p) old_str new_str w (written disk (answer, w'))
      by_answer true w' h = inl (refl, h)
      by_answer false w' h = inr (inr (refl, h))

  edit_content-Outcome :
      (p : List Component) (old_str new_str : Text) (o : Option Text) (w : State)
      → read_to_string w p ≡ o
      → Outcome (some p) old_str new_str w (edit_content disk p old_str new_str o w)
  unfolding edit_content
  edit_content-Outcome p old_str new_str none w given = inr (inl (io, (p, refl, given), refl))
  edit_content-Outcome p old_str new_str (some content) w given =
      let n = count_matches old_str content in
      elim (Bool-cases (n == 0)) [
        | inl e ↦
            let absent = zero-NoMatch old_str content (ground (arith, e)) in
            rw (e, edit_content) (inr (inl (not_found, (p, content, refl, given, absent), refl)))
        | inr e ↦ elim (Bool-cases (ltb 1 n)) [
          | inl f ↦
              let several : 1 < n = ground (arith, f) in
              rw (e, f, edit_content)
                (inr (inl (not_unique, (p, content, refl, given, several), refl)))
          | inr f ↦
              rw (e, f, edit_content)
                (written-Outcome p old_str new_str content w
                  (write w p (replace_first old_str new_str content)) given (ground (arith, e, f))
                  refl)
        ]
      ]

  edit_at-Outcome :
      (o : Option (List Component)) (old_str new_str : Text) (w : State)
      → Outcome o old_str new_str w (edit_at disk o old_str new_str w)
  edit_at-Outcome none old_str new_str w = inr (inl (path_escape, refl, refl))
  edit_at-Outcome (some p) old_str new_str w =
      edit_content-Outcome p old_str new_str (read_to_string w p) w refl

  -- With its three arguments, `edit_file` does one of three things: it writes the file that the path resolves
  -- to, with the new text for the old one at the first place where that stands, none being found
  -- behind it; or it changes nothing and says why: the path leaves the root, the file cannot be
  -- read, the old text stands nowhere in it, or is counted more than once, where matches that
  -- overlap one before are not counted; or that write has failed.
  pub edit_file-Outcome :
      (root : List Component) (path old_str new_str : Text) (w : State)
      → Outcome
          (resolve_in_root (view w) root path)
          old_str
          new_str
          w
          (edit_file disk root (some path) (some old_str) (some new_str) w)
  unfolding edit_file
  edit_file-Outcome root path old_str new_str w =
      edit_at-Outcome (resolve_in_root (view w) root path) old_str new_str w

-- So many times one code point.
abbrev pub run_of : ℕ → ℕ → Text
run_of zero c = []
run_of (suc n) c = c ∷ run_of n c

starts_with-run_of : (n m c : ℕ) → n ≤ m → starts_with (run_of m c) (run_of n c) ≡ true
unfolding starts_with
starts_with-run_of zero zero c h = refl
starts_with-run_of zero (suc m) c h = refl
starts_with-run_of (suc n) zero c h = absurd (omega (arith, h))
starts_with-run_of (suc n) (suc m) c h = ground (arith, starts_with-run_of n m c)

drop-run_of : (n c : ℕ) → drop n (run_of (suc n) c) ≡ c ∷ []
drop-run_of zero c = refl
drop-run_of (suc n) c = drop-run_of n c

length-run_of : (n c : ℕ) → length (run_of n c) ≡ n
length-run_of zero c = refl
length-run_of (suc n) c = ap suc (length-run_of n c)

last_one : (n c : ℕ) → count_from (run_of (suc (suc n)) c) 0 (c ∷ []) ≡ 0
unfolding count_from starts_with
last_one n c = ground arith

-- A text of at least two equal code points stands twice in the text with one more of them, at the start and
-- one place on, and is counted there once.
pub count_matches-overlap :
    (n c : ℕ)
    → (starts_with (run_of (suc (suc (suc n))) c) (run_of (suc (suc n)) c) ≡ true)
      × (starts_with (drop 1 (run_of (suc (suc (suc n))) c)) (run_of (suc (suc n)) c) ≡ true)
      × (count_matches (run_of (suc (suc n)) c) (run_of (suc (suc (suc n))) c) ≡ 1)
unfolding count_matches
count_matches-overlap n c =
    let p = run_of (suc (suc n)) c in
    let s = run_of (suc (suc n)) c in
    let here = starts_with-run_of (suc (suc n)) (suc (suc (suc n))) c (omega arith) in
    let step : count_from p 0 (c ∷ s) ≡ 1 + count_from p (length p - 1) s =
      count_from-cons p c s ∙ rw here refl in
    let covered : length p - 1 ≡ suc n = omega (arith, length-run_of (suc (suc n)) c) in
    let rest : count_from p (length p - 1) s ≡ 0 =
      ap (λ (k : ℕ). count_from p k s) covered
      ∙ count_from-drop p (suc n) s
      ∙ ap (count_from p 0) (drop-run_of (suc n) c)
      ∙ last_one n c in
    (
      here,
      starts_with-run_of (suc (suc n)) (suc (suc n)) c (omega arith),
      omega (arith, step, rest),
    )
