-- ===== src/Pool/Lifecycle.antt =====
-- The life of a worker in every interleaving of the pool's tasks and callers
-- (crates/orchestrator/src/pool.rs).
use entheai.Base.{
  ℕ, ◌<◌, String, ◌≡◌, refl, ◌⊎◌, inl, inr, ◌↔◌, true, false, none, some, arith, ◌==◌,
  if◌then◌else◌, nat_eq,
}
use entheai.Base.Assoc.{lookup, lookup-insert}
use entheai.Pool
use entheai.Pool.{
  WorkerStatus, WorkerPool, queued, running, done, timed_out, killed, insert_placeholder, attach,
  spawn, mark_running, mark_done, mark_done_status, reap, status, stop, output_snapshot, in_flight,
  is_over,
}
use entheai.Pool.Methods.{
  status-insert_placeholder, status-attach, status-take_join, status-mark_running,
  status-mark_done_status, status-mark_timed_out, status-stop, status-reap, status-record_output,
  output-record_output,
}
use entheai.Pool.Tasks.{
  waiting, holding, panicked, panics, reaps_panicked, reporting, ended, System, start, Step, spawns,
  attaches, starts, finishes, records, times_out, stops, cancels_waiting, cancels_holding,
  takes_join, reaps, Reach, here, next,
}
use entheai.Pool.Invariant.{Inv, Reach-Inv, Step-Inv}

-- A worker that is over with status `st`, or that was reaped after its task ended.
abbrev Settled : WorkerStatus → ℕ → System → Type 0
Settled st id s =
    (status s.pool id ≡ some st) ⊎ ((lookup id s.tasks ≡ some ended) × (status s.pool id ≡ none))

module _ (st : WorkerStatus) (id : ℕ) (over : is_over st ≡ true) where
  Step-Settled : {s t : System} → Step s t → Inv s → Settled st id s → Settled st id t
  Step-Settled (spawns s role task) v h = ground (
    arith,
    lookup-insert s.pool.next_id id waiting s.tasks,
    v.fresh s.pool.next_id,
    v.agree s.pool.next_id,
    status-insert_placeholder s.pool 0 id role task,
  )
  Step-Settled (attaches s j) v h = ground (arith, status-attach s.pool j id)
  Step-Settled (starts s j now free ph one) v h =
      ground
        (arith, lookup-insert j id holding s.tasks, v.agree j, status-mark_running s.pool j id now)
  Step-Settled (finishes s j output ph) v h = ground (
    arith,
    lookup-insert j id (reporting output) s.tasks,
    v.agree j,
    status-mark_done_status s.pool j id,
  )
  Step-Settled (records s j output ph) v h =
      ground (arith, lookup-insert j id ended s.tasks, status-record_output s.pool j id output)
  Step-Settled (times_out s j ph) v h =
      ground (arith, lookup-insert j id ended s.tasks, v.agree j, status-mark_timed_out s.pool j id)
  Step-Settled (stops s j) v h = ground (arith, status-stop s.pool j id)
  Step-Settled (cancels_waiting s j ph k) v h = ground (arith, lookup-insert j id ended s.tasks)
  Step-Settled (cancels_holding s j ph k) v h = ground (arith, lookup-insert j id ended s.tasks)
  Step-Settled (panics s j ph) v h = ground (arith, lookup-insert j id panicked s.tasks)
  Step-Settled (reaps_panicked s j ph) v h =
      ground (arith, lookup-insert j id ended s.tasks, status-reap s.pool j id)
  Step-Settled (takes_join s j) v h = ground (arith, status-take_join s.pool j id)
  Step-Settled (reaps s j ph) v h = ground (arith, status-reap s.pool j id)

  Reach-Settled : {s t : System} → Inv s → Settled st id s → Reach s t → Inv t × Settled st id t
  Reach-Settled v h here = (v, h)
  Reach-Settled v h (next r step) =
      let (v', h') = Reach-Settled v h r in (Step-Inv step v', Step-Settled step v' h')

-- A finished, timed out or killed worker keeps its status: in a state reached from a new pool, once
-- worker `id` is over with status `st`, in every later state its status is `st`, or the worker was
-- reaped and neither a status nor an output is left of it.
pub over_final :
    (n id : ℕ) (st : WorkerStatus) (s t : System)
    → Reach (start n) s
    → is_over st ≡ true
    → status s.pool id ≡ some st
    → Reach s t
    → (status t.pool id ≡ some st)
      ⊎ ((status t.pool id ≡ none) × (output_snapshot t.pool id ≡ none))
over_final n id st s t r over h more =
    let (v, d) = Reach-Settled st id over (Reach-Inv n r) (inl h) more in
    ground (arith, d, v.agree id)

-- Reaping leaves nothing behind: in a state reached from a new pool, when worker `id`, whose task has
-- ended, is reaped, no later state has a status or an output for `id`.
pub reap_final :
    (n id : ℕ) (s t : System)
    → Reach (start n) s
    → lookup id s.tasks ≡ some ended
    → Reach (record s { pool = reap s.pool id }) t
    → (status t.pool id ≡ none) × (output_snapshot t.pool id ≡ none)
reap_final n id s t r e more =
    let v = Step-Inv (reaps s id e) (Reach-Inv n r) in
    let gone : status (reap s.pool id) id ≡ none = ground (arith, status-reap s.pool id id) in
    let (w, d) = Reach-Settled done id refl v (inr (e, gone)) more in
    let (_, k) = Reach-Settled killed id refl v (inr (e, gone)) more in
    ground (arith, d, k, w.agree id)

-- In every state that is reached from a new pool: a worker with a captured output has a task that has
-- ended and is no longer in flight, and a worker whose status is done has its output captured as soon
-- as its task has ended.
pub output_snapshot-ended :
    (n id : ℕ) (s : System)
    → Reach (start n) s
    → ((text : String)
        → output_snapshot s.pool id ≡ some text
        → (lookup id s.tasks ≡ some ended) × (in_flight (status s.pool id) ≡ false))
      × (lookup id s.tasks ≡ some ended
          → status s.pool id ≡ some done
          → (text : String) × (output_snapshot s.pool id ≡ some text))
output_snapshot-ended n id s r = ground (arith, (Reach-Inv n r).agree id)

-- `stop` returns true exactly when the worker is known and in flight; then it is killed, and no other
-- status changes. When it returns false the pool is unchanged.
pub stop_lem :
    (p : WorkerPool) (id : ℕ)
    → (((stop p id).1 ≡ true) ↔ (in_flight (status p id) ≡ true))
      × ((stop p id).1 ≡ false → (stop p id).0 ≡ p)
      × ((j : ℕ)
          → (stop p id).1 ≡ true
          → status (stop p id).0 j ≡ (if id == j then some killed else status p j))
unfolding stop
stop_lem p id = (ground arith, ground arith, λ j h. ground (arith, status-stop p id j))

-- Nothing before `record_output` writes an output.
output-running :
    (p : WorkerPool) (role task : String) (now j : ℕ)
    → output_snapshot
        (mark_done_status
          (mark_running (attach (insert_placeholder p role task) p.next_id) p.next_id now)
          p.next_id)
        j
      ≡ output_snapshot p j
unfolding output_snapshot mark_done_status mark_running attach insert_placeholder
output-running p role task now j = refl

-- A worker that is spawned, starts and completes is done with its output captured, and no other
-- worker's status or output changes; its id is the pool's next, and the next worker has another.
-- If it is stopped before it completes, it stays killed though its output is captured.
pub spawn-mark_done :
    (p : WorkerPool) (role task output : String) (now j : ℕ)
    → let id = (spawn p role task).1 in
      let running_pool = mark_running (spawn p role task).0 id now in
      (id < (spawn p role task).0.next_id)
      × (status (mark_done running_pool id output) j ≡ (if id == j then some done else status p j))
      × (status (mark_done (stop running_pool id).0 id output) j
          ≡ (if id == j then some killed else status p j))
      × (output_snapshot (mark_done running_pool id output) j
          ≡ (if id == j then some output else output_snapshot p j))
unfolding spawn mark_done
spawn-mark_done p role task output now j =
    let q = insert_placeholder p role task in
    let a = attach q p.next_id in
    let r = mark_running a p.next_id now in
    let k = (stop r p.next_id).0 in
    (
      omega arith,
      ground (
        arith,
        status-record_output (mark_done_status r p.next_id) p.next_id j output,
        status-mark_done_status r p.next_id j,
        status-mark_running a p.next_id j now,
        status-attach q p.next_id j,
        status-insert_placeholder p 0 j role task,
      ),
      ground (
        arith,
        status-record_output (mark_done_status k p.next_id) p.next_id j output,
        status-mark_done_status k p.next_id j,
        status-stop r p.next_id j,
        status-mark_running a p.next_id j now,
        status-attach q p.next_id j,
        status-insert_placeholder p 0 j role task,
      ),
      ground (
        arith,
        output-record_output (mark_done_status r p.next_id) p.next_id j output,
        output-running p role task now j,
      ),
    )
