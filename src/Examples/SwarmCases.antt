-- ===== src/Examples/SwarmCases.antt =====
-- The swarm model and the bus at concrete inputs (crates/viz/src/model.rs, crates/bus/src/event.rs).
use entheai.Base.{◌≡◌, true, String, some, none, List, [], ◌∷◌, length, ltb, if◌then◌else◌}
use entheai.Swarm.{pending, decompose}
use entheai.Swarm.Nodes.{
  Event, started, finished, ends, apply_all, status_at, agent_run, apply_all-agent_run,
}

abbrev two_tasks : List (String × String)
two_tasks = ("coder", "parser") ∷ ("tester", "tests") ∷ []

abbrev a_run : List Event
a_run =
    started 1 "tester" "tests"
    ∷ started 7 "extra" "docs"
    ∷ finished 1 true "ok"
    ∷ ends (some "b") 1 0
    ∷ []

apply_all-agent_run_example :
    status_at 1 (apply_all (decompose two_tasks) a_run)
    ≡ agent_run 1 a_run (if ltb 1 (length two_tasks) then some pending else none)
apply_all-agent_run_example = apply_all-agent_run two_tasks a_run 1
