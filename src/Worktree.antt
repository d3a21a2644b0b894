-- ===== src/Worktree.antt =====
-- crates/orchestrator/src/worktree.rs: the worktrees and branches of one fan-out. Git is a parameter: a
-- state of the repository, and what a command run in a directory does to it and answers. An error of
-- anyhow is `none`; its text is not modelled.
pub mod Branches
use entheai.Base.{
  ℕ, String, Bool, true, false, not, Option, none, some, List, [], ◌∷◌, ◌++◌, ◌&&◌, if◌then◌else◌,
  map, any, string_eq, ◌=?◌,
}
use entheai.Base.Decimal.{decimal, ◌+s+◌}
use entheai.Base.Sets.{member}
use entheai.Base.Text.{trimmed, replace}

-- The arguments of `run_git`, in the order of their use.
pub data GitCommand : Type 0 where
  rev_parse : String → GitCommand
  worktree_add : String → String → String → GitCommand
  worktree_remove branch_delete : String → GitCommand
  add_all diff_cached : GitCommand
  commit : String → GitCommand
  merge : String → GitCommand
  merge_abort : GitCommand
  diff_range : String → String → GitCommand

-- Whether git exited with success, and what it wrote.
pub record GitOutput : Type 0 where
  pub success : Bool
  pub stdout : String

-- A step on the repository that answers.
abbrev pub Step : Type 0 → Type 0 → Type 0
Step Repo A = Repo → Repo × A

-- A step that may fail: the `?` of the source.
abbrev pub Attempt : Type 0 → Type 0 → Type 0
Attempt Repo A = Repo → Repo × Option A

infixl 5 ◌>>=◌
abbrev pub ◌>>=◌ : {Repo A B : Type 0} → Attempt Repo A → (A → Attempt Repo B) → Attempt Repo B
(m >>= f) r = elim (m r).1 [ none ↦ ((m r).0, none) | some a ↦ f a (m r).0 ]

abbrev pub done_with : {Repo A : Type 0} → A → Attempt Repo A
done_with a r = (r, some a)

abbrev pub fails : {Repo A : Type 0} → Attempt Repo A
fails r = (r, none)

-- The machine: git, the system's directory for temporary files, and the two calls of the file
-- system. The second is best effort.
pub record Git : Type 1 where
  pub Repo : Type 0
  pub temp_dir : String
  pub run_git : String → GitCommand → Attempt Repo GitOutput
  pub create_dir_all : String → Attempt Repo Unit
  pub remove_dir_all : String → Repo → Repo

pub record Worktree : Type 0 where
  pub path : String
  pub branch : String
  pub index : ℕ

pub record WorktreePool : Type 0 where
  pub root : String
  pub base : String
  pub session : String
  pub dir : String

pub record WorktreeGuard : Type 0 where
  pub pool : WorktreePool
  pub worktrees : List Worktree
  pub merged : List String

pub record Integration : Type 0 where
  pub branch : String
  pub merged : List String
  pub conflicted : List String
  pub diff : String

-- `entheai/<session>/coder-<i>`, and its directory.
abbrev pub coder_branch : String → ℕ → String
coder_branch session i = "entheai/" +s+ session +s+ "/coder-" +s+ decimal i

abbrev pub coder_path : String → ℕ → String
coder_path dir i = dir +s+ "/coder-" +s+ decimal i

abbrev pub integration_branch : String → String
integration_branch session = "entheai/" +s+ session +s+ "/integration"

unfoldable pub guard : WorktreePool → WorktreeGuard
guard pool = record { pool = pool; worktrees = []; merged = [] }

unfoldable pub mark_merged : WorktreeGuard → List String → WorktreeGuard
mark_merged g branches = record g { merged = g.merged ++ branches }

-- What `drop` runs in the root, whatever each command answers.
abbrev pub cleanup : List String → List Worktree → List GitCommand
cleanup merged [] = []
cleanup merged (wt ∷ wts) =
    let rest = cleanup merged wts in
    if member wt.branch merged
    then worktree_remove wt.path ∷ branch_delete wt.branch ∷ rest
    else worktree_remove wt.path ∷ rest

unfoldable pub drop_commands : WorktreeGuard → List GitCommand
drop_commands g = cleanup g.merged g.worktrees

-- The path of the integration worktree.
abbrev pub int_path : String → String → String
int_path temp branch = temp +s+ "/entheai-int-" +s+ replace "/" "-" branch

module _ (G : Git) where
  open G use {Repo, temp_dir, run_git, create_dir_all, remove_dir_all}

  unfoldable pub is_git_repo : String → Repo → Repo × Bool
  unfolding trimmed
  is_git_repo root r =
      let (s, answer) = run_git root (rev_parse "--is-inside-work-tree") r in
      elim answer [
        | none ↦ (s, false)
        | some out ↦ (s, out.success && trimmed out.stdout =? "true")
      ]

  -- `bail!` unless git was successful.
  abbrev pub must : String → GitCommand → Attempt Repo String
  must dir c = do out ← run_git dir c; if out.success then done_with out.stdout else fails

  unfoldable pub resolve_base : String → String → Attempt Repo String
  unfolding trimmed
  resolve_base root gitref = do sha ← must root (rev_parse gitref); done_with (trimmed sha)

  -- `WorktreePool::new`.
  unfoldable pub new : String → String → String → Attempt Repo WorktreePool
  unfolding resolve_base
  new root session base_ref = do
    base ← resolve_base root base_ref
    _ ← create_dir_all (temp_dir +s+ "/entheai-wt-" +s+ session)
    done_with (record {
      root = root;
      base = base;
      session = session;
      dir = temp_dir +s+ "/entheai-wt-" +s+ session;
    })

  unfoldable pub create : WorktreePool → ℕ → Attempt Repo Worktree
  create p i = do
    _ ← must p.root (worktree_add (coder_branch p.session i) (coder_path p.dir i) p.base)
    done_with (record { path = coder_path p.dir i; branch = coder_branch p.session i; index = i })

  -- The deletion of the branch is best effort.
  unfoldable pub remove : WorktreePool → Worktree → Attempt Repo Unit
  remove p wt = do
    _ ← must p.root (worktree_remove wt.path)
    λ r. ((run_git p.root (branch_delete wt.branch) r).0, some tt)

  -- The tracked worktree, and the guard that tracks it.
  unfoldable pub guard_create : WorktreeGuard → ℕ → Attempt Repo (Worktree × WorktreeGuard)
  unfolding create
  guard_create g i = do
    wt ← create g.pool i
    done_with (wt, record g { worktrees = g.worktrees ++ wt ∷ [] })

  abbrev pub run_all : String → List GitCommand → Repo → Repo
  run_all dir [] r = r
  run_all dir (c ∷ cs) r = run_all dir cs (run_git dir c r).0

  unfoldable pub drop : WorktreeGuard → Repo → Repo
  unfolding drop_commands
  drop g r = remove_dir_all g.pool.dir (run_all g.pool.root (drop_commands g) r)

  -- True if a commit was made.
  unfoldable pub commit_all : String → String → Attempt Repo Bool
  commit_all path message = do
    _ ← must path add_all
    staged ← run_git path diff_cached
    if staged.success then done_with false else do _ ← must path (commit message); done_with true

  unfoldable pub branch_diff : String → String → String → Attempt Repo String
  branch_diff root base branch = must root (diff_range base branch)

  abbrev pub Merges : Type 0
  Merges = List String × List String

  -- The loop over the branches, with what has been merged and what has conflicted.
  unfoldable pub merge_all : String → List String → Merges → Attempt Repo Merges
  merge_all path [] m = done_with m
  merge_all path (b ∷ bs) (merged, conflicted) = do
    out ← run_git path (merge b)
    if out.success then merge_all path bs (merged ++ b ∷ [], conflicted) else λ r.
        merge_all path bs (merged, conflicted ++ b ∷ []) (run_git path merge_abort r).0

  unfoldable pub integrate : String → String → String → List String → Attempt Repo Integration
  unfolding merge_all
  integrate root base branch branches = do
    _ ← must root (worktree_add branch (int_path temp_dir branch) base)
    m ← merge_all (int_path temp_dir branch) branches ([], [])
    diff ← must (int_path temp_dir branch) (diff_range base "HEAD")
    _ ← must root (worktree_remove (int_path temp_dir branch))
    done_with (record { branch = branch; merged = m.0; conflicted = m.1; diff = diff })
