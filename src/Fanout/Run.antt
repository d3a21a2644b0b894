-- ===== src/Fanout/Run.antt =====
-- crates/orchestrator/src/lib.rs: `run_fanout_detailed` from the choice of the session on: the worktrees, the
-- coders, the settling of their runs, the integration, and the guard that is dropped on every exit.
-- The coders' dispatch through the pool is modelled in Pool; here it is the host's `run_coders`. The text
-- of the report, and the audit that follows it under the executor `agy`, are not modelled.
use entheai.Base.{
  ℕ, suc, String, Bool, true, false, Option, none, some, List, [], ◌∷◌, ◌++◌, map, length, keep,
  if◌then◌else◌, string_eq,
}
use entheai.Base.Sets.{member}
use entheai.Bus.{FanoutEvent}
use entheai.Worktree.{
  Worktree, WorktreePool, WorktreeGuard, Integration, Attempt, ◌>>=◌, guard, guard_create,
  mark_merged, drop, integrate, integration_branch, resolve_base,
}
use entheai.Worktree
use entheai.Oracle.{Oracle, OracleContext, integration}
use entheai.Fanout.{Host, SubTask, CoderRun, CoderOutcome, Joined, ran, killed, timed_out}
use entheai.Fanout.Settle.{Setting, Progress, settle_all}

abbrev pub ended : Joined → String
ended (ran text) = text
ended killed = "error: coder killed (stopped via /workers)"
ended timed_out = "error: coder timed out"

abbrev pub is_lost : Joined → Bool
is_lost (ran _) = false
is_lost _ = true

-- The run of a joined coder.
abbrev pub run_of : (ℕ → Joined) → Worktree × SubTask → CoderRun
run_of joins (wt, st) = record {
  index = wt.index;
  role = st.role;
  task = st.task;
  branch = wt.branch;
  path = wt.path;
  output = ended (joins wt.index);
}

-- The indexes of the coders that were joined without a run.
abbrev pub lost : (ℕ → Joined) → List (Worktree × SubTask) → List ℕ
lost joins wts =
    map (λ (w : Worktree × SubTask). w.0.index)
      (keep (λ (w : Worktree × SubTask). is_lost (joins w.0.index)) wts)

abbrev pub after_merge : List String → CoderOutcome → CoderOutcome
after_merge conflicted o =
    if member o.branch conflicted then record o { integrated = false; conflicted = true } else o

-- What the report is rendered from.
pub record FanoutRun : Type 0 where
  pub session : String
  pub base : String
  pub outcomes : List CoderOutcome
  pub integration : Option Integration

-- How the function is left: the machine after the guard is dropped, the guard as it is dropped, the
-- events sent, and the result, or `none` for an error.
pub record Ending (Repo : Type 0) : Type 0 where
  pub repo : Repo
  pub guard : WorktreeGuard
  pub events : List FanoutEvent
  pub result : Option FanoutRun

module _ (H : Host) (S : Setting) (session task : String) where
  open H use {git, Num}

  abbrev pub Worktrees : Type 0
  Worktrees = List (Worktree × SubTask)

  -- The guard as far as it came, and the worktrees unless one could not be created.
  unfoldable pub create_all :
      WorktreeGuard
      → ℕ
      → List SubTask
      → Worktrees
      → git.Repo
      → git.Repo × (WorktreeGuard × Option Worktrees)
  create_all g i [] wts r = (r, (g, some wts))
  create_all g i (st ∷ sts) wts r =
      let (after, made) = guard_create git g i r in
      elim made [
        | none ↦ (after, (g, none))
        | some (wt, g') ↦ create_all g' (suc i) sts (wts ++ (wt, st) ∷ []) after
      ]

  abbrev leave : WorktreeGuard → git.Repo → List FanoutEvent → Option FanoutRun → Ending git.Repo
  leave g r events result = record {
    repo = drop git g r;
    guard = g;
    events = events;
    result = result;
  }

  abbrev g3_context : List String → OracleContext Num
  g3_context eligible = record {
    task = task;
    mapped_files = [];
    diffs = map (λ (b : String). (b, "")) eligible;
    attestations = [];
    prior = [];
  }

  -- The oracle's answer to the integration is logged, and blocks nothing.
  unfoldable pub g3 : Option (Oracle Num git.Repo) → List String → git.Repo → git.Repo
  g3 none eligible r = r
  g3 (some o) eligible r = (o.adjudicate integration (g3_context eligible) r).0

  abbrev finished : List CoderOutcome → Option Integration → FanoutRun
  finished outcomes i = record {
    session = session;
    base = S.base;
    outcomes = outcomes;
    integration = i;
  }

  abbrev pub merge_in : WorktreeGuard → Progress git.Repo → git.Repo → Integration → Ending git.Repo
  merge_in g p r i =
      leave (mark_merged g i.merged) r
        (p.events
          ++ FanoutEvent.integrating (length p.eligible)
            ∷ FanoutEvent.done (some i.branch) (length i.merged) (length i.conflicted)
            ∷ [])
        (some (finished (map (after_merge i.conflicted) p.outcomes) (some i)))

  unfoldable pub conclude_with : WorktreeGuard → Progress git.Repo → List String → Ending git.Repo
  unfolding g3
  conclude_with g p [] =
      leave g p.repo (p.events ++ FanoutEvent.done none 0 0 ∷ []) (some (finished p.outcomes none))
  conclude_with g p (b ∷ bs) =
      let (r, made) =
        integrate git S.root S.base (integration_branch session) p.eligible
          (g3 H.oracle p.eligible p.repo) in
      elim made [
        | none ↦ leave g r (p.events ++ FanoutEvent.integrating (length p.eligible) ∷ []) none
        | some i ↦ merge_in g p r i
      ]

  -- The coders' own events are those of the host.
  abbrev pub started : git.Repo → Progress git.Repo
  started r = record { repo = r; outcomes = []; eligible = []; events = []; trajectories = [] }

  -- The progress of the settled runs.
  unfoldable pub settled : Worktrees → git.Repo → Progress git.Repo
  settled wts r =
      let (after, joins) = H.run_coders wts r in
      settle_all H S (lost joins wts) (map (run_of joins) wts) (started after)

  abbrev pub go_on : WorktreeGuard → Option Worktrees → git.Repo → Ending git.Repo
  go_on g none r = leave g r [] none
  go_on g (some wts) r = let p = settled wts r in conclude_with g p p.eligible

  -- From the creation of the guard to its drop.
  unfoldable pub guarded : WorktreePool → List SubTask → git.Repo → Ending git.Repo
  unfolding settled conclude_with create_all
  guarded pool subtasks r =
      let (after, (g, made)) = create_all (guard pool) 0 subtasks [] r in go_on g made after

-- The base is that of `HEAD`; before the guard there is nothing to drop.
unfoldable pub fan_out :
    (H : Host)
    → Setting
    → String
    → String
    → List SubTask
    → H.git.Repo
    → H.git.Repo × Option (Ending H.git.Repo)
unfolding guarded
fan_out H S session task subtasks r =
    let (r1, head) = resolve_base H.git S.root "HEAD" r in
    elim head [
      | none ↦ (r1, none)
      | some base ↦
          let (r2, made) = Worktree.new H.git S.root session base r1 in
          elim made [
            | none ↦ (r2, none)
            | some pool ↦
                let e = guarded H (record S { base = base }) session task pool subtasks r2 in
                (e.repo, some e)
          ]
    ]
