-- ===== src/Examples/FanoutCases.antt =====
-- The fan-out, its worktrees and its oracle at concrete inputs (crates/orchestrator/src).
use entheai.Base.{
  ℕ, suc, ◌≡◌, refl, Bool, true, false, not, Option, none, some, List, [], ◌∷◌, ◌=?◌, string_eq,
}
use entheai.Worktree.{
  Git, GitCommand, diff_cached, merge, WorktreePool, guard, guard_create, integrate, commit_all,
}
use entheai.Fanout.{Host, SubTask, CoderRun, Joined, ran, output}
use entheai.Base.{◌≤◌, ◌+◌, ◌<◌, ◌↔◌, length, all, any}
use entheai.Base.Decimal.{decimal}
use entheai.Base.Text.{codes, find, rfind}
use entheai.Oracle.Reply.{Reply, parse_verdict, parse_verdict-panics}
use entheai.Fanout.Decompose.{
  parse_decomposition, ensure_coder, usable, is_coder, ensure_coder-parse_decomposition,
}
use entheai.Fanout.Verify.{verify_worktree, resolve_verify}
use entheai.Fanout.Settle.{Setting, settle_all}
use entheai.Fanout.Branches.{MergedBy, integration_of, Kept, guarded-Kept}
use entheai.Fanout.Events.{Told, guarded-Told}
use entheai.Fanout.Run.{guarded, FanoutRun, Ending}

-- A git in which there are always changes, and in which the second coder's branch conflicts.
abbrev succeeds : GitCommand → Bool
succeeds diff_cached = false
succeeds (merge b) = not (b =? "entheai/s/coder-1")
succeeds _ = true

abbrev small_git : Git
small_git = record {
  Repo = ℕ;
  temp_dir = "/tmp";
  run_git = λ dir c r. (suc r, some (record { success = succeeds c; stdout = "ok" }));
  create_dir_all = λ dir r. (r, some tt);
  remove_dir_all = λ dir r. r;
}

-- The third coder is lost.
abbrev joins : ℕ → Joined
joins (suc (suc _)) = Joined.timed_out
joins _ = ran "done"

abbrev small_host : Host
small_host = record {
  git = small_git;
  is_file = λ path r. false;
  sh = λ path cmd r. (suc r, output true [] (b'1' ∷ []));
  raw_diff = λ path base r. (r, some (b'd' ∷ []));
  from_utf8_lossy = λ bytes. "log";
  sha256 = λ bytes. 10 ∷ [];
  sphere_attestations = λ r. [];
  run_coders = λ wts r. (suc r, joins);
  Num = ℕ;
  oracle = none;
}

abbrev tested : Setting
tested = record {
  config = record { verify = some "make test"; verify_required = true };
  root = "/r";
  base = "c0";
}

abbrev a_pool : WorktreePool
a_pool = record { root = "/r"; base = "c0"; session = "s"; dir = "/tmp/entheai-wt-s" }

abbrev three_tasks : List SubTask
three_tasks =
    record { role = "coder"; task = "one" }
    ∷ record { role = "coder"; task = "two" }
    ∷ record { role = "test"; task = "three" }
    ∷ []

abbrev or_empty : Option FanoutRun → FanoutRun
or_empty (some f) = f
or_empty none = record { session = ""; base = ""; outcomes = []; integration = none }

abbrev ending : Ending ℕ
ending = guarded small_host tested "s" "t" a_pool three_tasks 0

gives : ending.result ≡ some (or_empty ending.result)
unfolding guarded guard_create settle_all commit_all verify_worktree resolve_verify integrate guard
    decimal
gives = refl

guarded-Kept_example :
    Kept (guarded small_host tested "s" "t" a_pool three_tasks 0)
    × MergedBy small_host "s"
        (integration_of (guarded small_host tested "s" "t" a_pool three_tasks 0).result)
guarded-Kept_example = guarded-Kept small_host tested "s" "t" a_pool three_tasks 0

guarded-Told_example : Told ending (or_empty ending.result)
guarded-Told_example =
    guarded-Told small_host tested "s" "t" a_pool three_tasks 0 (or_empty ending.result) gives

abbrev two_runs : List CoderRun
two_runs =
    record {
      index = 0;
      role = "coder";
      task = "one";
      branch = "entheai/s/coder-0";
      path = "/tmp/entheai-wt-s/coder-0";
      output = "done";
    }
    ∷ record {
      index = 1;
      role = "test";
      task = "two";
      branch = "entheai/s/coder-1";
      path = "/tmp/entheai-wt-s/coder-1";
      output = "error: coder timed out";
    }
    ∷ []

-- A reply that is read as two sub-tasks, neither of a coder, and one of them blank.
abbrev a_plan : List ℕ → Option (List SubTask)
a_plan bytes =
    some (
      record { role = "explore"; task = "map the code" }
      ∷ record { role = "test"; task = " " }
      ∷ [])

ensure_coder-parse_decomposition_example :
    let ts = parse_decomposition a_plan (codes " [..] ") 4 in
    (length ts ≤ 4)
    × ((all usable ts ≡ true)
        × ((any is_coder (ensure_coder ts "all of it") ≡ true)
            × (length (ensure_coder ts "all of it") ≤ 4 + 1)))
ensure_coder-parse_decomposition_example =
    ensure_coder-parse_decomposition a_plan (codes " [..] ") 4 "all of it"

abbrev no_reply : List ℕ → Option (Reply ℕ)
no_reply bytes = none

parse_verdict-panics_example : (parse_verdict 0 no_reply (codes "} or {") ≡ none) ↔ (
    (start : ℕ) × ((last : ℕ) × ((find b'{' (codes "} or {") ≡ some start)
        × ((rfind b'}' (codes "} or {") ≡ some last) × (suc last < start)))))
parse_verdict-panics_example = parse_verdict-panics 0 no_reply (codes "} or {")
