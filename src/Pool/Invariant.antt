-- ===== src/Pool/Invariant.antt =====
-- What every reachable state of the pool keeps (crates/orchestrator/src/pool.rs): the permits are
-- free or held, ids are never reused, and each worker's status and output fit its task's phase.
use entheai.Base.{
  ℕ, ◌≤◌, ◌+◌, String, ◌≡◌, refl, ◌⊎◌, Bool, true, false, Option, none, some, arith, nat_eq,
}
use entheai.Base.Assoc.{lookup, lookup-insert, weigh-insert}
use entheai.Pool
use entheai.Pool.{
  WorkerStatus, WorkerPool, queued, running, done, timed_out, killed, insert_placeholder, attach,
  mark_running, mark_done_status, record_output, mark_timed_out, take_join, reap, status, stop,
  output_snapshot, in_flight,
}
use entheai.Pool.Methods.{
  status-insert_placeholder, status-attach, status-take_join, status-mark_running,
  status-mark_done_status, status-mark_timed_out, status-stop, status-record_output, status-reap,
  output-reap, output-record_output,
}
use entheai.Pool.Tasks.{
  Phase, waiting, holding, reporting, ended, panicked, panics, reaps_panicked, permits_of, System,
  holders, start, Step, spawns, attaches, starts, finishes, records, times_out, stops,
  cancels_waiting, cancels_holding, takes_join, reaps, Reach, here, next,
}

abbrev pub is_running : Option WorkerStatus → Bool
is_running (some (running _)) = true
is_running _ = false

-- The statuses and outputs that a worker may have while its task is in a phase; `none` is an id
-- that was never spawned.
abbrev pub Agrees : Option Phase → Option WorkerStatus → Option String → Type 0
Agrees none st out = (st ≡ none) × (out ≡ none)
Agrees (some waiting) st out = ((st ≡ some queued) ⊎ (st ≡ some killed)) × (out ≡ none)
Agrees (some holding) st out = ((is_running st ≡ true) ⊎ (st ≡ some killed)) × (out ≡ none)
Agrees (some (reporting _)) st out = ((st ≡ some done) ⊎ (st ≡ some killed)) × (out ≡ none)
Agrees (some panicked) st out = ((is_running st ≡ true) ⊎ (st ≡ some killed)) × (out ≡ none)
Agrees (some ended) st out =
    (in_flight st ≡ false)
    × (st ≡ some done → (text : String) × (out ≡ some text))
    × (st ≡ none → out ≡ none)

pub record Inv (s : System) : Type 0 where
  pub balanced : s.available + holders s ≡ s.pool.permits
  pub fresh : (id : ℕ) → s.pool.next_id ≤ id → lookup id s.tasks ≡ none
  pub agree : (id : ℕ) → Agrees (lookup id s.tasks) (status s.pool id) (output_snapshot s.pool id)

start-Inv : (n : ℕ) → Inv (start n)
unfolding Pool.new lookup status output_snapshot
start-Inv n = record { balanced = omega arith; fresh = λ id h. refl; agree = λ id. (refl, refl) }

pub Step-Inv : {s t : System} → Step s t → Inv s → Inv t
unfolding insert_placeholder attach mark_running mark_done_status record_output mark_timed_out
    take_join reap stop output_snapshot
Step-Inv (spawns s role task) v = record {
  balanced = ground (
    arith,
    weigh-insert permits_of s.pool.next_id waiting s.tasks,
    v.balanced,
    v.fresh s.pool.next_id,
  );
  fresh = λ id h. ground (arith, lookup-insert s.pool.next_id id waiting s.tasks, v.fresh id);
  agree = λ id. ground (
    arith,
    lookup-insert s.pool.next_id id waiting s.tasks,
    v.fresh id,
    v.agree id,
    status-insert_placeholder s.pool 0 id role task,
  );
}
Step-Inv (attaches s id) v = record {
  balanced = ground (arith, v.balanced);
  fresh = λ j h. ground (arith, v.fresh j);
  agree = λ j. ground (arith, v.agree j, status-attach s.pool id j);
}
Step-Inv (starts s id now free ph one) v = record {
  balanced = ground (arith, weigh-insert permits_of id holding s.tasks, v.balanced);
  fresh = λ j h. ground (arith, lookup-insert id j holding s.tasks, v.fresh j, v.fresh id);
  agree = λ j.
      ground
        (arith, lookup-insert id j holding s.tasks, v.agree j, status-mark_running s.pool id j now);
}
Step-Inv (finishes s id output ph) v = record {
  balanced = ground (arith, weigh-insert permits_of id (reporting output) s.tasks, v.balanced);
  fresh =
      λ j h. ground (arith, lookup-insert id j (reporting output) s.tasks, v.fresh j, v.fresh id);
  agree = λ j. ground (
    arith,
    lookup-insert id j (reporting output) s.tasks,
    v.agree j,
    status-mark_done_status s.pool id j,
  );
}
Step-Inv (records s id output ph) v = record {
  balanced = ground (arith, weigh-insert permits_of id ended s.tasks, v.balanced);
  fresh = λ j h. ground (arith, lookup-insert id j ended s.tasks, v.fresh j, v.fresh id);
  agree = λ j. ground (
    arith,
    lookup-insert id j ended s.tasks,
    v.agree j,
    status-record_output s.pool id j output,
    output-record_output s.pool id j output,
  );
}
Step-Inv (times_out s id ph) v = record {
  balanced = ground (arith, weigh-insert permits_of id ended s.tasks, v.balanced);
  fresh = λ j h. ground (arith, lookup-insert id j ended s.tasks, v.fresh j, v.fresh id);
  agree = λ j.
      ground
        (arith, lookup-insert id j ended s.tasks, v.agree j, status-mark_timed_out s.pool id j);
}
Step-Inv (stops s id) v = record {
  balanced = ground (arith, v.balanced);
  fresh = λ j h. ground (arith, v.fresh j);
  agree = λ j. ground (arith, v.agree j, status-stop s.pool id j);
}
Step-Inv (cancels_waiting s id ph k) v = record {
  balanced = ground (arith, weigh-insert permits_of id ended s.tasks, v.balanced);
  fresh = λ j h. ground (arith, lookup-insert id j ended s.tasks, v.fresh j, v.fresh id);
  agree = λ j. ground (arith, lookup-insert id j ended s.tasks, v.agree j);
}
Step-Inv (cancels_holding s id ph k) v = record {
  balanced = ground (arith, weigh-insert permits_of id ended s.tasks, v.balanced);
  fresh = λ j h. ground (arith, lookup-insert id j ended s.tasks, v.fresh j, v.fresh id);
  agree = λ j. ground (arith, lookup-insert id j ended s.tasks, v.agree j);
}
Step-Inv (panics s id ph) v = record {
  balanced = ground (arith, weigh-insert permits_of id panicked s.tasks, v.balanced);
  fresh = λ j h. ground (arith, lookup-insert id j panicked s.tasks, v.fresh j, v.fresh id);
  agree = λ j. ground (arith, lookup-insert id j panicked s.tasks, v.agree j);
}
Step-Inv (reaps_panicked s id ph) v = record {
  balanced = ground (arith, weigh-insert permits_of id ended s.tasks, v.balanced);
  fresh = λ j h. ground (arith, lookup-insert id j ended s.tasks, v.fresh j, v.fresh id);
  agree = λ j. ground (
    arith,
    lookup-insert id j ended s.tasks,
    v.agree j,
    status-reap s.pool id j,
    output-reap s.pool id j,
  );
}
Step-Inv (takes_join s id) v = record {
  balanced = ground (arith, v.balanced);
  fresh = λ j h. ground (arith, v.fresh j);
  agree = λ j. ground (arith, v.agree j, status-take_join s.pool id j);
}
Step-Inv (reaps s id ph) v = record {
  balanced = ground (arith, v.balanced);
  fresh = λ j h. ground (arith, v.fresh j);
  agree = λ j. ground (arith, v.agree j, status-reap s.pool id j, output-reap s.pool id j);
}

-- Every state that is reached from a new pool keeps the invariant.
pub Reach-Inv : (n : ℕ) {s : System} → Reach (start n) s → Inv s
Reach-Inv n here = start-Inv n
Reach-Inv n (next r st) = Step-Inv st (Reach-Inv n r)
