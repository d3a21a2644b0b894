-- ===== src/Worktree/Branches.antt =====
-- crates/orchestrator/src/worktree.rs: which branches an integration merges, and which a guard
-- deletes.
use entheai.Base.{
  ℕ, ◌≡◌, refl, sym, ap, ◌∙◌, subst, String, true, false, some, List, [], ◌∷◌, ◌++◌, map, keep,
  Bool-cases, Option-cases, inl, inr, arith, string_eq, =?_refl,
}
use mathlib.Core.List.{append-nil, append_assoc}
use entheai.Base.Decimal.{decimal-injective, push_str-cancel}
use entheai.Base.Sets.{member, distinct, unseen}
use entheai.Worktree.{
  Git, GitOutput, GitCommand, worktree_remove, branch_delete, Attempt, ◌>>=◌, WorktreeGuard,
  Worktree, Integration, merge, diff_range, worktree_add, int_path, merge_abort, must, merge_all,
  integrate, drop_commands, cleanup, coder_branch,
}

-- What comes before an answer.
pub bind-some :
    {R A B : Type 0} (m : Attempt R A) (f : A → Attempt R B) (r : R) (b : B)
    → ((m >>= f) r).1 ≡ some b
    → (a : A) × (((m r).1 ≡ some a) × ((f a (m r).0).1 ≡ some b))
bind-some m f r b h = elim (Option-cases (m r).1) [
  | inl e ↦ absurd (ground (arith, h, e))
  | inr (a, e) ↦ (a, (e, ground (arith, h, e)))
]

-- The branches that a list of commands deletes, and the worktrees that it removes.
abbrev pub deleted : List GitCommand → List String
deleted [] = []
deleted (branch_delete b ∷ cs) = b ∷ deleted cs
deleted (_ ∷ cs) = deleted cs

abbrev pub removed : List GitCommand → List String
removed [] = []
removed (worktree_remove p ∷ cs) = p ∷ removed cs
removed (_ ∷ cs) = removed cs

deleted-cleanup :
    (merged : List String) (wts : List Worktree)
    → (deleted (cleanup merged wts) ≡ keep (λ b. member b merged) (map (λ w. w.branch) wts))
      × (removed (cleanup merged wts) ≡ map (λ w. w.path) wts)
deleted-cleanup merged [] = (refl, refl)
deleted-cleanup merged (w ∷ wts) = ground (arith, deleted-cleanup merged wts)

-- Dropping a guard deletes, of the branches of its worktrees, those that were marked as merged, in
-- order, and removes every worktree.
pub deleted-drop_commands :
    (g : WorktreeGuard)
    → (deleted (drop_commands g) ≡ keep (λ b. member b g.merged) (map (λ w. w.branch) g.worktrees))
      × (removed (drop_commands g) ≡ map (λ w. w.path) g.worktrees)
unfolding drop_commands
deleted-drop_commands g = deleted-cleanup g.merged g.worktrees

pub coder_branch-injective :
    (session : String) (i j : ℕ) → coder_branch session i ≡ coder_branch session j → i ≡ j
coder_branch-injective session i j e =
    decimal-injective i j (
      push_str-cancel "/coder-" _ _
        (push_str-cancel session _ _ (push_str-cancel "entheai/" _ _ e)))

unseen-skip :
    (b : String) (d bs : List String) → member b bs ≡ false → unseen (b ∷ d) bs ≡ unseen d bs
unseen-skip b d [] h = refl
unseen-skip b d (c ∷ bs) h =
    ground (arith, unseen-skip b d bs, string_eq.beq_iff b c, string_eq.beq_iff c b)

abbrev seen : List String → List String → List String
seen d bs = keep (λ b. member b d) bs

seen-skip : (b : String) (d bs : List String) → member b bs ≡ false → seen (b ∷ d) bs ≡ seen d bs
seen-skip b d [] h = refl
seen-skip b d (c ∷ bs) h =
    ground (arith, seen-skip b d bs, string_eq.beq_iff b c, string_eq.beq_iff c b)

-- What the loop adds to the conflicted branches.
abbrev Split :
    List String → List String × List String → List String × List String → List String → Type 0
Split bs m n d =
    (n.0 ≡ m.0 ++ unseen d bs)
    × ((n.1 ≡ m.1 ++ d)
        × ((d ≡ seen d bs) × ((b : String) → member b d ≡ true → member b bs ≡ true)))

Split-merged :
    (b : String) (bs d : List String) (m n : List String × List String)
    → member b bs ≡ false
    → Split bs (m.0 ++ b ∷ [], m.1) n d
    → Split (b ∷ bs) m n d
Split-merged b bs d m n h (e0, (e1, (e2, e3))) =
    let apart : member b d ≡ false = elim (Bool-cases (member b d)) [
      | inl k ↦ absurd (ground (arith, e3 b k, h))
      | inr k ↦ k
    ] in
    (
      e0
          ∙ append_assoc m.0 (b ∷ []) (unseen d bs)
          ∙ ap (λ (xs : List String). m.0 ++ xs) (rw apart refl),
      (e1, (e2 ∙ rw apart refl, λ c k. ground (arith, e3 c k))),
    )

Split-conflicted :
    (b : String) (bs d : List String) (m n : List String × List String)
    → member b bs ≡ false
    → Split bs (m.0, m.1 ++ b ∷ []) n d
    → Split (b ∷ bs) m n (b ∷ d)
Split-conflicted b bs d m n h (e0, (e1, (e2, e3))) =
    let self = =?_refl b in
    (
      e0 ∙ ap (λ (xs : List String). m.0 ++ xs) (rw self (sym (unseen-skip b d bs h))),
      (
        e1 ∙ append_assoc m.1 (b ∷ []) d,
        (
          rw self (ap (λ (xs : List String). b ∷ xs) (e2 ∙ sym (seen-skip b d bs h))),
          λ c k. ground (arith, e3 c, k),
        ),
      ),
    )

module _ (G : Git) where
  open G use {Repo}

  merge_all-Split :
      (path : String) (bs : List String) (m n : List String × List String) (r : Repo)
      → distinct bs ≡ true
      → (merge_all G path bs m r).1 ≡ some n
      → (d : List String) × Split bs m n d
  unfolding merge_all
  merge_all-Split path [] (m0, m1) (n0, n1) r h e =
      let same : ◌≡◌ {A = List String × List String} (m0, m1) (n0, n1) = ground (arith, e) in
      (
        [],
        (
          sym (ap (λ (x : List String × List String). x.0) same) ∙ sym (append-nil m0),
          (
            sym (ap (λ (x : List String × List String). x.1) same) ∙ sym (append-nil m1),
            (refl, λ b k. absurd (ground (arith, k))),
          ),
        ),
      )
  merge_all-Split path (b ∷ bs) (m0, m1) n r h e =
      let fresh : member b bs ≡ false = ground (arith, h) in
      let rest : distinct bs ≡ true = ground (arith, h) in
      elim (Option-cases (G.run_git path (merge b) r).1) [
        | inl k ↦ absurd (ground (arith, e, k))
        | inr (out, k) ↦ elim (Bool-cases out.success) [
          | inl ok ↦
              let (d, s) =
                merge_all-Split path bs (m0 ++ b ∷ [], m1) n (G.run_git path (merge b) r).0 rest
                  (ground (arith, e, k, ok)) in
              (d, Split-merged b bs d (m0, m1) n fresh s)
          | inr bad ↦
              let (d, s) =
                merge_all-Split path bs (m0, m1 ++ b ∷ []) n
                  (G.run_git path merge_abort (G.run_git path (merge b) r).0).0 rest
                  (ground (arith, e, k, bad)) in
              (b ∷ d, Split-conflicted b bs d (m0, m1) n fresh s)
        ]
      ]

  -- What git answers to the merges in a worktree, one branch after another: which it has merged, and which
  -- not, whose merges are aborted.
  pub data Merging (path : String) : Repo → List String → List String → List String → Type 0 where
    none_left : (r : Repo) → Merging path r [] [] []
    merges :
        (r : Repo) (b : String) (bs ms cs : List String) (out : GitOutput)
        → (G.run_git path (merge b) r).1 ≡ some out
        → out.success ≡ true
        → Merging path (G.run_git path (merge b) r).0 bs ms cs
        → Merging path r (b ∷ bs) (b ∷ ms) cs
    conflicts :
        (r : Repo) (b : String) (bs ms cs : List String) (out : GitOutput)
        → (G.run_git path (merge b) r).1 ≡ some out
        → out.success ≡ false
        → Merging path (G.run_git path merge_abort (G.run_git path (merge b) r).0).0 bs ms cs
        → Merging path r (b ∷ bs) ms (b ∷ cs)

  -- The branches that a loop adds to those before.
  abbrev Adds :
      String → Repo → List String → List String × List String → List String × List String → Type 0
  Adds path r bs m n =
      (ms : List String) × (cs : List String) × Merging path r bs ms cs
      × (n.0 ≡ m.0 ++ ms)
      × (n.1 ≡ m.1 ++ cs)

  merge_all-Merging :
      (path : String) (bs : List String) (m n : List String × List String) (r : Repo)
      → (merge_all G path bs m r).1 ≡ some n
      → Adds path r bs m n
  unfolding merge_all
  merge_all-Merging path [] (m0, m1) (n0, n1) r e =
      let same : ◌≡◌ {A = List String × List String} (m0, m1) (n0, n1) = ground (arith, e) in
      (
        [],
        [],
        none_left r,
        sym (ap (λ (x : List String × List String). x.0) same) ∙ sym (append-nil m0),
        sym (ap (λ (x : List String × List String). x.1) same) ∙ sym (append-nil m1),
      )
  merge_all-Merging path (b ∷ bs) (m0, m1) n r e =
      elim (Option-cases (G.run_git path (merge b) r).1) [
        | inl k ↦ absurd (ground (arith, e, k))
        | inr (out, k) ↦ elim (Bool-cases out.success) [
          | inl ok ↦
              let (ms, cs, rest, e0, e1) =
                merge_all-Merging path bs (m0 ++ b ∷ [], m1) n (G.run_git path (merge b) r).0
                  (ground (arith, e, k, ok)) in
              (b ∷ ms, cs, merges r b bs ms cs out k ok rest, e0 ∙ append_assoc m0 (b ∷ []) ms, e1)
          | inr bad ↦
              let (ms, cs, rest, e0, e1) =
                merge_all-Merging path bs (m0, m1 ++ b ∷ []) n
                  (G.run_git path merge_abort (G.run_git path (merge b) r).0).0
                  (ground (arith, e, k, bad)) in
              (
                ms,
                b ∷ cs,
                conflicts r b bs ms cs out k bad rest,
                e0,
                e1 ∙ append_assoc m1 (b ∷ []) cs,
              )
        ]
      ]

  -- An integration that succeeds has merged the branches that git has merged in its worktree.
  pub integrate-Merging :
      (root base branch : String) (bs : List String) (r : Repo) (i : Integration)
      → (integrate G root base branch bs r).1 ≡ some i
      → Merging
          (int_path G.temp_dir branch)
          (must G root (worktree_add branch (int_path G.temp_dir branch) base) r).0
          bs
          i.merged
          i.conflicted
  unfolding integrate
  integrate-Merging root base branch bs r i e =
      let path = int_path G.temp_dir branch in
      let r1 = (must G root (worktree_add branch path base) r).0 in
      let r2 = (merge_all G path bs ([], []) r1).0 in
      let r3 = (must G path (diff_range base "HEAD") r2).0 in
      elim (Option-cases (must G root (worktree_add branch path base) r).1) [
        | inl k1 ↦ absurd (ground (arith, e, k1))
        | inr (a, k1) ↦ elim (Option-cases (merge_all G path bs ([], []) r1).1) [
          | inl k2 ↦ absurd (ground (arith, e, k1, k2))
          | inr (n, k2) ↦ elim (Option-cases (must G path (diff_range base "HEAD") r2).1) [
            | inl k3 ↦ absurd (ground (arith, e, k1, k2, k3))
            | inr (diff, k3) ↦ elim (Option-cases (must G root (worktree_remove path) r3).1) [
              | inl k4 ↦ absurd (ground (arith, e, k1, k2, k3, k4))
              | inr (b, k4) ↦
                  let (ms, cs, all, e0, e1) = merge_all-Merging path bs ([], []) n r1 k2 in
                  let merged : ms ≡ i.merged = ground (arith, e, k1, k2, k3, k4, e0) in
                  let conflicted : cs ≡ i.conflicted = ground (arith, e, k1, k2, k3, k4, e1) in
                  subst (λ (xs : List String). Merging path r1 bs xs i.conflicted) merged
                    (subst (λ (xs : List String). Merging path r1 bs ms xs) conflicted all)
            ]
          ]
        ]
      ]

  -- Where the branches are different, an integration that succeeds has each of them either merged
  -- or conflicted, both in order.
  pub integrate-split :
      (root base branch : String) (bs : List String) (r : Repo) (i : Integration)
      → distinct bs ≡ true
      → (integrate G root base branch bs r).1 ≡ some i
      → (i.branch ≡ branch)
        × ((i.merged ≡ unseen i.conflicted bs)
            × (i.conflicted ≡ keep (λ b. member b i.conflicted) bs))
  unfolding integrate
  integrate-split root base branch bs r i h e =
      let path = int_path G.temp_dir branch in
      let r1 = (must G root (worktree_add branch path base) r).0 in
      let r2 = (merge_all G path bs ([], []) r1).0 in
      let r3 = (must G path (diff_range base "HEAD") r2).0 in
      elim (Option-cases (must G root (worktree_add branch path base) r).1) [
        | inl k1 ↦ absurd (ground (arith, e, k1))
        | inr (a, k1) ↦ elim (Option-cases (merge_all G path bs ([], []) r1).1) [
          | inl k2 ↦ absurd (ground (arith, e, k1, k2))
          | inr (n, k2) ↦ elim (Option-cases (must G path (diff_range base "HEAD") r2).1) [
            | inl k3 ↦ absurd (ground (arith, e, k1, k2, k3))
            | inr (diff, k3) ↦ elim (Option-cases (must G root (worktree_remove path) r3).1) [
              | inl k4 ↦ absurd (ground (arith, e, k1, k2, k3, k4))
              | inr (b, k4) ↦
                  let (d, s) = merge_all-Split path bs ([], []) n r1 h k2 in
                  ground (arith, e, k1, k2, k3, k4, s)
            ]
          ]
        ]
      ]
