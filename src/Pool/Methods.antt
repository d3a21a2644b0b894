-- ===== src/Pool/Methods.antt =====
-- What each method of the pool does to the status and the output of every worker, the named one and
-- the others (crates/orchestrator/src/pool.rs).
use entheai.Base.{
  ℕ, String, ◌≡◌, refl, true, false, ◌&&◌, Option, none, some, inl, inr, Option-cases, List, arith,
  ◌==◌, if◌then◌else◌, nat_eq,
}
use entheai.Base.Assoc.{lookup, map_option, lookup-insert, lookup-remove}
use entheai.Pool.{
  WorkerStatus, queued, running, done, timed_out, killed, WorkerHandle, WorkerPool,
  insert_placeholder, update, unless_killed, attach, mark_running, mark_done_status, record_output,
  mark_timed_out, take_join, reap, status, status_of, output_snapshot, in_flight, stop,
}

lookup-update :
    (f : WorkerHandle → WorkerHandle) (k j : ℕ) (ws : List (ℕ × WorkerHandle))
    → lookup j (update f k ws) ≡ (if k == j then map_option f (lookup j ws) else lookup j ws)
unfolding update
lookup-update f k j ws = elim (Option-cases (lookup k ws)) [
  | inl e ↦ ground (arith, e)
  | inr (h, e) ↦ ground (arith, e, lookup-insert k j (f h) ws)
]

-- The status that a mark leaves: a killed worker stays killed, an unknown one unknown.
abbrev pub marked : WorkerStatus → Option WorkerStatus → Option WorkerStatus
marked s none = none
marked s (some killed) = some killed
marked s (some _) = some s

status_of-unless_killed :
    (s : WorkerStatus) (o : Option WorkerHandle)
    → status_of (map_option (unless_killed s) o) ≡ marked s (status_of o)
status_of-unless_killed s o = ground arith

module _ (p : WorkerPool) (id j : ℕ) where
  pub status-insert_placeholder :
      (role task : String)
      → status (insert_placeholder p role task) j
        ≡ (if p.next_id == j then some queued else status p j)
  unfolding status insert_placeholder
  status-insert_placeholder role task = ground (
    arith,
    lookup-insert p.next_id j (record { join = false; status = queued; role = role; task = task })
        p.workers,
  )

  pub status-attach : status (attach p id) j ≡ status p j
  unfolding status attach
  status-attach = ground (arith, lookup-update (λ h. record h { join = true }) id j p.workers)

  pub status-take_join : status (take_join p id).0 j ≡ status p j
  unfolding status take_join
  status-take_join = ground (arith, lookup-update (λ h. record h { join = false }) id j p.workers)

  pub status-mark_running :
      (now : ℕ)
      → status (mark_running p id now) j
        ≡ (if id == j then marked (running now) (status p j) else status p j)
  unfolding status mark_running
  status-mark_running now = ground (
    arith,
    lookup-update (unless_killed (running now)) id j p.workers,
    status_of-unless_killed (running now) (lookup j p.workers),
  )

  pub status-mark_done_status :
      status (mark_done_status p id) j ≡ (if id == j then marked done (status p j) else status p j)
  unfolding status mark_done_status
  status-mark_done_status = ground (
    arith,
    lookup-update (unless_killed done) id j p.workers,
    status_of-unless_killed done (lookup j p.workers),
  )

  pub status-mark_timed_out :
      status (mark_timed_out p id) j
      ≡ (if id == j then marked timed_out (status p j) else status p j)
  unfolding status mark_timed_out
  status-mark_timed_out = ground (
    arith,
    lookup-update (unless_killed timed_out) id j p.workers,
    status_of-unless_killed timed_out (lookup j p.workers),
  )

  pub status-stop :
      status (stop p id).0 j
      ≡ (if (id == j) && in_flight (status p j) then some killed else status p j)
  unfolding stop status
  status-stop = ground (arith, lookup-update (λ h. record h { status = killed }) id j p.workers)

  pub status-reap : status (reap p id) j ≡ (if id == j then none else status p j)
  unfolding status reap
  status-reap = ground (arith, lookup-remove id j p.workers)

  pub output-reap : output_snapshot (reap p id) j ≡ (if id == j then none else output_snapshot p j)
  unfolding output_snapshot reap
  output-reap = lookup-remove id j p.outputs

  pub output-record_output :
      (output : String)
      → output_snapshot (record_output p id output) j
        ≡ (if id == j then some output else output_snapshot p j)
  unfolding output_snapshot record_output
  output-record_output output = lookup-insert id j output p.outputs

  pub status-record_output : (output : String) → status (record_output p id output) j ≡ status p j
  unfolding status record_output
  status-record_output output = refl
