-- ===== src/Pool.antt =====
-- crates/orchestrator/src/pool.rs: the pool of tracked workers.
-- A `JoinHandle` is tokio's: the model keeps whether it is still there to be taken. Locking makes each
-- method one atomic step; what tokio does between the steps is in Pool/Tasks. The time of a start is
-- a number, and the role, the task and the output are texts.
pub mod Methods
pub mod Tasks
pub mod Invariant
pub mod Lifecycle
use entheai.Base.{
  ℕ, ◌+◌, String, Bool, true, false, Option, none, some, List, [], ◌∷◌, map, max, if◌then◌else◌,
  nat_eq,
}
use entheai.Base.Assoc.{lookup, insert, remove}

pub data WorkerStatus : Type 0 where
  queued : WorkerStatus
  running : ℕ → WorkerStatus
  done timed_out killed : WorkerStatus

pub record WorkerSummary : Type 0 where
  pub id : ℕ
  pub role : String
  pub task : String
  pub status : WorkerStatus

pub record WorkerHandle : Type 0 where
  pub join : Bool
  pub status : WorkerStatus
  pub role : String
  pub task : String

pub record WorkerPool : Type 0 where
  pub workers : List (ℕ × WorkerHandle)
  pub outputs : List (ℕ × String)
  pub permits : ℕ
  pub next_id : ℕ

unfoldable pub new : ℕ → WorkerPool
new max_parallel = record { workers = []; outputs = []; permits = max max_parallel 1; next_id = 0 }

-- The placeholder entry, without a join handle.
unfoldable pub insert_placeholder : WorkerPool → String → String → WorkerPool
insert_placeholder p role task = record p {
  workers =
      insert p.next_id (record { join = false; status = queued; role = role; task = task })
        p.workers;
  next_id = p.next_id + 1;
}

-- `if let Some(h) = workers.get_mut(&id) { ... }`.
unfoldable pub update :
    (WorkerHandle → WorkerHandle) → ℕ → List (ℕ × WorkerHandle) → List (ℕ × WorkerHandle)
update f id ws = elim (lookup id ws) [ none ↦ ws | some h ↦ insert id (f h) ws ]

abbrev pub is_killed : WorkerStatus → Bool
is_killed killed = true
is_killed _ = false

abbrev pub unless_killed : WorkerStatus → WorkerHandle → WorkerHandle
unless_killed s h = if is_killed h.status then h else record h { status = s }

-- The real handles are attached to the placeholder.
unfoldable pub attach : WorkerPool → ℕ → WorkerPool
attach p id = record p { workers = update (λ h. record h { join = true }) id p.workers }

unfoldable pub spawn : WorkerPool → String → String → WorkerPool × ℕ
unfolding insert_placeholder attach
spawn p role task = (attach (insert_placeholder p role task) p.next_id, p.next_id)

unfoldable pub mark_running : WorkerPool → ℕ → ℕ → WorkerPool
mark_running p id now = record p { workers = update (unless_killed (running now)) id p.workers }

-- The two halves of `mark_done`, each under a lock of its own.
unfoldable pub mark_done_status : WorkerPool → ℕ → WorkerPool
mark_done_status p id = record p { workers = update (unless_killed done) id p.workers }

unfoldable pub record_output : WorkerPool → ℕ → String → WorkerPool
record_output p id output = record p { outputs = insert id output p.outputs }

unfoldable pub mark_done : WorkerPool → ℕ → String → WorkerPool
unfolding mark_done_status record_output
mark_done p id output = record_output (mark_done_status p id) id output

unfoldable pub mark_timed_out : WorkerPool → ℕ → WorkerPool
mark_timed_out p id = record p { workers = update (unless_killed timed_out) id p.workers }

abbrev has_handle : Option WorkerHandle → Bool
has_handle none = false
has_handle (some h) = h.join

-- The part of `join` before its await: the join handle, if there is one, is taken.
unfoldable pub take_join : WorkerPool → ℕ → WorkerPool × Bool
take_join p id = (
  record p { workers = update (λ h. record h { join = false }) id p.workers },
  has_handle (lookup id p.workers),
)

unfoldable pub reap : WorkerPool → ℕ → WorkerPool
reap p id = record p { workers = remove id p.workers; outputs = remove id p.outputs }

unfoldable pub list : WorkerPool → List WorkerSummary
list p =
    map (λ e. record { id = e.0; role = e.1.role; task = e.1.task; status = e.1.status }) p.workers

abbrev pub status_of : Option WorkerHandle → Option WorkerStatus
status_of none = none
status_of (some h) = some h.status

unfoldable pub status : WorkerPool → ℕ → Option WorkerStatus
status p id = status_of (lookup id p.workers)

unfoldable pub output_snapshot : WorkerPool → ℕ → Option String
output_snapshot p id = lookup id p.outputs

abbrev pub is_over : WorkerStatus → Bool
is_over done = true
is_over timed_out = true
is_over killed = true
is_over _ = false

abbrev pub in_flight : Option WorkerStatus → Bool
in_flight none = false
in_flight (some s) = if is_over s then false else true

unfoldable pub stop : WorkerPool → ℕ → WorkerPool × Bool
unfolding status
stop p id =
    if in_flight (status p id)
    then (record p { workers = update (λ h. record h { status = killed }) id p.workers }, true)
    else (p, false)
