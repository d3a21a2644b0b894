-- ===== src/Tools/Search.antt =====
-- crates/tools/src/search.rs: the lines that `search` finds. What the walk of the directories gives, in its order and
-- without the excluded ones, is a list: a file has its path and its lines, up to one that cannot be read.
use mathlib.Core.List.{append_assoc, append-nil}
use entheai.Base.{
  ℕ, zero, suc, ◌+◌, ◌≤◌, ◌<◌, ◌≡◌, inl, inr, refl, sym, ap, ◌∙◌, Bool, true, false, ◌||◌, List, [],
  ◌∷◌, ◌++◌, any, length, length-append, take, ltb, leb, ◌==◌, max, if◌then◌else◌, arith,
  Bool-cases, leb→le,
}
use entheai.Base.Text.{contains, trim}
use entheai.MemoryPp.Cap.{byte_len}
use entheai.Tools.Edit.{max_file_bytes}

abbrev pub Text : Type 0
Text = List ℕ

-- The parts of a hit that is printed: the path, the number of the line and its text.
abbrev pub Hit : Type 0
Hit = Text × ℕ × Text

abbrev pub has_zero : Text → Bool
has_zero l = any (λ (c : ℕ). c == 0) l

module _ (query : Text) (max_results : ℕ) where
  -- The lines of one file from a number on: the hits with those before, and whether that is all that is
  -- asked for.
  unfoldable pub in_file : Text → ℕ → ℕ → List Text → List Hit → List Hit × Bool
  in_file path n bytes [] hits = (hits, false)
  in_file path n bytes (l ∷ ls) hits =
      let bytes' = bytes + byte_len l in
      let more = in_file path (n + 1) bytes' ls hits in
      let hits' = hits ++ (path, n + 1, trim l) ∷ [] in
      let after = in_file path (n + 1) bytes' ls hits' in
      if ltb max_file_bytes bytes' || has_zero l
      then (hits, false)
      else if contains l query
      then (if leb max_results (length hits') then (hits', true) else after)
      else more

  unfoldable pub in_files : List (Text × List Text) → List Hit → List Hit × Bool
  unfolding in_file
  in_files [] hits = (hits, false)
  in_files (f ∷ fs) hits =
      let found = in_file f.0 0 0 f.1 hits in
      let rest = in_files fs found.0 in if found.1 then (found.0, true) else rest

  unfoldable pub search : List (Text × List Text) → List Hit × Bool
  unfolding in_files
  search fs = in_files fs []

  -- All hits of a file, and of all files.
  unfoldable pub hits_in : Text → ℕ → ℕ → List Text → List Hit
  hits_in path n bytes [] = []
  hits_in path n bytes (l ∷ ls) =
      let rest = hits_in path (n + 1) (bytes + byte_len l) ls in
      if ltb max_file_bytes (bytes + byte_len l) || has_zero l
      then []
      else if contains l query
      then (path, n + 1, trim l) ∷ rest
      else rest

  unfoldable pub all_hits : List (Text × List Text) → List Hit
  unfolding hits_in
  all_hits [] = []
  all_hits (f ∷ fs) = hits_in f.0 0 0 f.1 ++ all_hits fs

  -- What a search reports of its hits: all of them, or the first ones and that there are that many.
  abbrev pub limited : List Hit → List Hit × Bool
  limited hits = (take (max 1 max_results) hits, leb (max 1 max_results) (length hits))

  take-append_short : (n : ℕ) (xs ys : List Hit) → n ≤ length xs → take n (xs ++ ys) ≡ take n xs
  take-append_short zero xs ys h = refl
  take-append_short (suc n) [] ys h = absurd (omega (arith, h))
  take-append_short (suc n) (x ∷ xs) ys h =
      ap (λ (zs : List Hit). x ∷ zs) (take-append_short n xs ys (omega (arith, h)))

  take-all : (n : ℕ) (xs : List Hit) → length xs ≤ n → take n xs ≡ xs
  take-all zero [] h = refl
  take-all zero (x ∷ xs) h = absurd (omega (arith, h))
  take-all (suc n) [] h = refl
  take-all (suc n) (x ∷ xs) h = ap (λ (zs : List Hit). x ∷ zs) (take-all n xs (omega (arith, h)))

  limited-short : (hits : List Hit) → length hits < max 1 max_results → limited hits ≡ (hits, false)
  limited-short hits h =
      let short : leb (max 1 max_results) (length hits) ≡ false = ground (arith, h) in
      λ i. (take-all (max 1 max_results) hits (omega (arith, h)) i, short i)

  -- The last hit that is asked for.
  limited-full :
      (hits more : List Hit)
      → length hits ≡ max 1 max_results
      → limited (hits ++ more) ≡ (hits, true)
  limited-full hits more h =
      let enough : leb (max 1 max_results) (length (hits ++ more)) ≡ true =
        ground (arith, h, length-append hits more) in
      let first : take (max 1 max_results) (hits ++ more) ≡ hits =
        take-append_short (max 1 max_results) hits more (omega (arith, h))
        ∙ take-all (max 1 max_results) hits (omega (arith, h)) in
      λ i. (first i, enough i)

  length-snoc : (hits : List Hit) (x : Hit) → length (hits ++ x ∷ []) ≡ length hits + 1
  length-snoc hits x = length-append hits (x ∷ [])

  -- With fewer hits than the limit before, a file is searched to the limit or to its end.
  in_file-limited :
      (path : Text) (n bytes : ℕ) (ls : List Text) (hits : List Hit)
      → length hits < max 1 max_results
      → in_file path n bytes ls hits ≡ limited (hits ++ hits_in path n bytes ls)
  unfolding in_file hits_in
  in_file-limited path n bytes [] hits h = sym (ap limited (append-nil hits) ∙ limited-short hits h)
  in_file-limited path n bytes (l ∷ ls) hits h =
      let hit : Hit = (path, n + 1, trim l) in
      let bytes' = bytes + byte_len l in
      let hits' : List Hit = hits ++ hit ∷ [] in
      let longer = length-snoc hits hit in
      elim (Bool-cases (ltb max_file_bytes bytes' || has_zero l)) [
        | inl e ↦
            rw (e, in_file, hits_in) (sym (ap limited (append-nil hits) ∙ limited-short hits h))
        | inr e ↦ elim (Bool-cases (contains l query)) [
          | inl f ↦
              let rest = hits_in path (n + 1) bytes' ls in
              let joined : hits' ++ rest ≡ hits ++ hit ∷ rest = append_assoc hits (hit ∷ []) rest in
              elim (Bool-cases (leb max_results (length hits'))) [
                | inl g ↦
                    let full : length hits' ≡ max 1 max_results = ground (arith, h, g, longer) in
                    rw (e, f, g, in_file, hits_in)
                      (sym (ap limited (sym joined) ∙ limited-full hits' rest full))
                | inr g ↦
                    let room : length hits' < max 1 max_results = ground (arith, g) in
                    rw (e, f, g, in_file, hits_in)
                      (in_file-limited path (n + 1) bytes' ls hits' room ∙ ap limited joined)
              ]
          | inr f ↦ rw (e, f, in_file, hits_in) (in_file-limited path (n + 1) bytes' ls hits h)
        ]
      ]

  limited-more :
      (hits more : List Hit)
      → leb (max 1 max_results) (length hits) ≡ true
      → limited (hits ++ more) ≡ limited hits
  limited-more hits more h =
      let enough : leb (max 1 max_results) (length (hits ++ more))
          ≡ leb (max 1 max_results) (length hits) =
        ground (arith, h, length-append hits more) in
      let first = take-append_short (max 1 max_results) hits more (leb→le _ _ h) in
      λ i. (first i, enough i)

  in_files-limited :
      (fs : List (Text × List Text)) (hits : List Hit)
      → length hits < max 1 max_results
      → in_files fs hits ≡ limited (hits ++ all_hits fs)
  unfolding in_files all_hits
  in_files-limited [] hits h = sym (ap limited (append-nil hits) ∙ limited-short hits h)
  in_files-limited (f ∷ fs) hits h =
      let here = hits_in f.0 0 0 f.1 in
      let one = in_file-limited f.0 0 0 f.1 hits h in
      let joined = append_assoc hits here (all_hits fs) in
      let next = λ (o : List Hit × Bool). if o.1 then (o.0, true) else in_files fs o.0 in
      elim (Bool-cases (leb (max 1 max_results) (length (hits ++ here)))) [
        | inl e ↦
            let stop : limited (hits ++ here) ≡ (take (max 1 max_results) (hits ++ here), true) =
              λ i. (take (max 1 max_results) (hits ++ here), e i) in
            ap next (one ∙ stop)
            ∙ sym stop
            ∙ sym (limited-more (hits ++ here) (all_hits fs) e)
            ∙ ap limited joined
        | inr e ↦
            let room : length (hits ++ here) < max 1 max_results = ground (arith, e) in
            ap next (one ∙ limited-short (hits ++ here) room)
            ∙ in_files-limited fs (hits ++ here) room
            ∙ ap limited joined
      ]

  -- A search finds the matching lines of the files in order, up to the number that is asked for, and one where that
  -- is 0, and says exactly then that there were so many that it stopped.
  pub search-limited : (fs : List (Text × List Text)) → search fs ≡ limited (all_hits fs)
  unfolding search
  search-limited fs = in_files-limited fs [] (omega arith)
