-- ===== src/MemoryPp/Processor/Ingested.antt =====
-- crates/memory-pp/src/processor.rs: what the processor stores of a run and of the world.
use mathlib.Core.List.{append_assoc}
use entheai.Base.{
  ℕ, ◌≡◌, refl, sym, ap, ◌∙◌, true, not, Option, none, some, List, [], ◌∷◌, ◌++◌, length,
  length-append, arith, Bool-cases, inl, inr,
}
use entheai.Base.Text.{codes}
use entheai.MemoryPp.Cap.{cap_bytes}
use entheai.MemoryPp.Raw.Tables.{Text, Row, external, RawStore, has_id, id_of, insert, ingest}
use entheai.MemoryPp.Processor.{turn, turns, transcript_text, is_fresh, ingest_current}

regroup : (p t a : Text) → (p ++ (t ++ a)) ++ t ≡ (p ++ t) ++ (a ++ t)
regroup p t a = simp append_assoc

module _ (to_hex : Text → Text) where
  turns-append :
      (xs ys : List (Text × Text)) → turns to_hex (xs ++ ys) ≡ turns to_hex xs ++ turns to_hex ys
  turns-append [] ys = refl
  turns-append (x ∷ xs) ys =
      ap (λ (t : Text). turn to_hex x ++ t) (turns-append xs ys)
      ∙ sym (append_assoc (turn to_hex x) (turns to_hex xs) (turns to_hex ys))

  -- The text of a transcript in which the answer stands already has it twice.
  pub transcript_text-twice :
      (before after : List (Text × Text)) (answer : Text)
      → transcript_text to_hex (before ++ (codes "assistant", answer) ∷ after) answer
        ≡ (turns to_hex before ++ turn to_hex (codes "assistant", answer))
          ++ (turns to_hex after ++ turn to_hex (codes "assistant", answer))
  unfolding transcript_text
  transcript_text-twice before after answer =
      let last = turn to_hex (codes "assistant", answer) in
      ap (λ (t : Text). t ++ last) (turns-append before ((codes "assistant", answer) ∷ after))
      ∙ regroup (turns to_hex before) last (turns to_hex after)

  is_fresh-insert :
      (r : Row) (s : RawStore)
      → is_fresh to_hex true (length s.rows) (insert to_hex true r s) ≡ not (has_id r.id s.rows)
  unfolding insert
  is_fresh-insert r s = elim (Bool-cases (has_id r.id s.rows)) [
    | inl e ↦ rw (e, insert) (ground arith)
    | inr e ↦ rw (e, insert) (ground (arith, length-append s.rows (r ∷ [])))
  ]

  -- Where both counts and the call succeed, a headline from the world is reported as new exactly when the store
  -- did not have it: the title and the content, cut to the cap.
  pub ingest_current-new :
      (max_ingest_bytes now : ℕ) (meta : Option Text) (title content body : Text) (s : RawStore)
      → cap_bytes (title ++ (10 ∷ content)) max_ingest_bytes ≡ some body
      → (ingest_current to_hex max_ingest_bytes true true none now meta title content s).0
        ≡ not (has_id (id_of to_hex external body) s.rows)
  unfolding ingest_current ingest
  ingest_current-new max_ingest_bytes now meta title content body s h = rw h (is_fresh-insert _ s)
