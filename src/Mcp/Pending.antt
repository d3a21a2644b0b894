-- ===== src/Mcp/Pending.antt =====
-- crates/mcp/src/lib.rs: every request that waits is answered once.
use entheai.Base.{
  ℕ, ◌+◌, ◌<◌, ◌≡◌, refl, ◌∙◌, true, Option, none, some, List, [], ◌∷◌, ◌++◌, map, length, count_if,
  ltb, ◌==◌, ==_iff, if◌then◌else◌, arith, Bool-cases, Option-cases, inl, inr, nat_eq,
}
use entheai.Base.Sets.{member, distinct, member-discard, distinct-discard}
use entheai.Base.Text.{trim}
use entheai.Mcp.{Chunk}
use entheai.Mcp.Framing.{flat, sound}
use entheai.Mcp.Loop.{
  Decoder, Answer, err, Router, outcome, resolve, answer_to, unless_blank, drain, handle,
  handle_all, reader_loop, lines_of, reader_loop-handle_all,
}

module _ {Value : Type 0} where
  -- The answers sent to a request.
  abbrev pub answers : ℕ → List (ℕ × Answer Value) → ℕ
  answers id sent = count_if (λ (s : ℕ × Answer Value). s.0 == id) sent

  -- The answers that a request has, and the one it waits for.
  abbrev pub due : ℕ → Router Value → ℕ
  due id w = answers id w.sent + (if member id w.pending then 1 else 0)

  answers-append :
      (id : ℕ) (xs ys : List (ℕ × Answer Value))
      → answers id (xs ++ ys) ≡ answers id xs + answers id ys
  answers-append id [] ys = omega arith
  answers-append id (x ∷ xs) ys = ground (arith, answers-append id xs ys)

  -- No request waits twice, and none has lost or gained an answer.
  abbrev pub Keeps : Router Value → Router Value → Type 0
  Keeps w w' = (distinct w'.pending ≡ true) × ((id : ℕ) → due id w' ≡ due id w)

  resolve-Keeps :
      (id : ℕ) (a : Answer Value) (w : Router Value)
      → distinct w.pending ≡ true
      → Keeps w (resolve id a w)
  unfolding resolve
  resolve-Keeps id a w d = elim (Bool-cases (member id w.pending)) [
    | inl e ↦
        rw (e, resolve)
          (
            distinct-discard id w.pending d,
            λ j. ground (
              arith,
              e,
              answers-append j w.sent ((id, a) ∷ []),
              member-discard id j w.pending,
              ==_iff id j,
            ),
          )
    | inr e ↦ rw (e, resolve) (d, λ j. refl)
  ]

  answers-closed :
      (a : Answer Value) (id : ℕ) (ids : List ℕ)
      → distinct ids ≡ true
      → answers id (map (λ (i : ℕ). (i, a)) ids) ≡ (if member id ids then 1 else 0)
  answers-closed a id [] d = refl
  answers-closed a id (i ∷ ids) d = ground (arith, d, answers-closed a id ids, ==_iff i id)

  pub drain-due :
      (id : ℕ) (w : Router Value) → distinct w.pending ≡ true → answers id (drain w).sent ≡ due id w
  unfolding drain
  drain-due id w d = ground (
    arith,
    answers-append id w.sent (map (λ (i : ℕ). (i, err "closed")) w.pending),
    answers-closed (err "closed") id w.pending d,
  )

module _ {Value : Type 0} (decoder : Decoder Value) where
  answer_to-Keeps :
      (id : Option ℕ) (a : Option (Answer Value)) (w : Router Value)
      → distinct w.pending ≡ true
      → Keeps w (answer_to id a w)
  answer_to-Keeps (some id) (some a) w d = resolve-Keeps id a w d
  answer_to-Keeps (some id) none w d = (d, λ j. refl)
  answer_to-Keeps none a w d = (d, λ j. refl)

  unless_blank-Keeps :
      (l : List ℕ) (w : Router Value)
      → distinct w.pending ≡ true
      → Keeps w (unless_blank decoder l w)
  unless_blank-Keeps [] w d = (d, λ j. refl)
  unless_blank-Keeps (b ∷ bs) w d = elim (Option-cases (decoder.from_str (b ∷ bs))) [
    | inl e ↦ rw e (d, λ j. refl)
    | inr (m, e) ↦ rw e (answer_to-Keeps m.id (outcome m.error m.result) w d)
  ]

  pub handle-Keeps :
      (l : List ℕ) (w : Router Value) → distinct w.pending ≡ true → Keeps w (handle decoder l w)
  unfolding handle
  handle-Keeps l w d = unless_blank-Keeps (trim (decoder.from_utf8_lossy l)) w d

  handle_all-Keeps :
      (max_bytes : ℕ) (ls : List (List ℕ)) (w : Router Value)
      → distinct w.pending ≡ true
      → Keeps w (handle_all decoder max_bytes ls w)
  handle_all-Keeps max_bytes [] w d = (d, λ id. refl)
  handle_all-Keeps max_bytes (l ∷ ls) w d = elim (Bool-cases (ltb max_bytes (length l))) [
    | inl e ↦ rw (e, handle_all) (handle_all-Keeps max_bytes ls w d)
    | inr e ↦
        let (d1, k1) = handle-Keeps l w d in
        let (d2, k2) = handle_all-Keeps max_bytes ls (handle decoder l w) d1 in
        rw (e, handle_all) (d2, λ id. k2 id ∙ k1 id)
  ]

  -- When the stream has ended, however it came in chunks and whatever it said, every request that
  -- waited has had one answer more, no other has, and none waits.
  pub reader_loop-answers :
      (fuel max_bytes : ℕ) (cs : List Chunk) (w : Router Value)
      → sound cs ≡ true
      → length (flat cs) < fuel
      → distinct w.pending ≡ true
      → (v : Router Value) × ((reader_loop decoder fuel max_bytes cs w ≡ some v)
          × ((v.pending ≡ [])
              × ((id : ℕ)
                  → answers id v.sent
                    ≡ answers id w.sent + (if member id w.pending then 1 else 0))))
  unfolding drain
  reader_loop-answers fuel max_bytes cs w ok h d =
      let v = handle_all decoder max_bytes (lines_of decoder (flat cs)) w in
      let (d', k) = handle_all-Keeps max_bytes (lines_of decoder (flat cs)) w d in
      (
        drain v,
        (
          reader_loop-handle_all decoder fuel max_bytes cs w ok h,
          (refl, λ id. drain-due id v d' ∙ k id),
        ),
      )
