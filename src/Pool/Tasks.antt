-- ===== src/Pool/Tasks.antt =====
-- The pool in motion (crates/orchestrator/src/pool.rs): callers and spawned tasks take steps in any
-- order. A task waits for a permit of tokio's semaphore, holds it while its future runs, and gives it
-- back at its end; an aborted task ends at an await, without a mark, and so does one whose future panics. The
-- semaphore is the number of its free permits: a task gets one where one is free.
use entheai.Base.{ℕ, suc, ◌+◌, String, ◌≡◌, some, List, [], nat_eq}
use entheai.Base.Assoc.{lookup, insert, weigh}
use entheai.Pool
use entheai.Pool.{
  WorkerPool, killed, insert_placeholder, attach, mark_running, mark_done_status, record_output,
  mark_timed_out, take_join, reap, status, stop,
}

-- Where a spawned task is. Between its two halves of `mark_done` it still holds its permit.
pub data Phase : Type 0 where
  waiting holding panicked : Phase
  reporting : String → Phase
  ended : Phase

abbrev pub permits_of : Phase → ℕ
permits_of waiting = 0
permits_of holding = 1
permits_of (reporting _) = 1
permits_of panicked = 0
permits_of ended = 0

pub record System : Type 0 where
  pub pool : WorkerPool
  pub available : ℕ
  pub tasks : List (ℕ × Phase)

-- How many tasks hold a permit.
abbrev pub holders : System → ℕ
holders s = weigh permits_of s.tasks

abbrev pub start : ℕ → System
start max_parallel = record {
  pool = Pool.new max_parallel;
  available = (Pool.new max_parallel).permits;
  tasks = [];
}

-- `spawns` and `attaches` are the two locked sections of `spawn`; a caller reaps a worker after
-- `join` has awaited its task.
pub data Step : System → System → Type 0 where
  spawns :
      (s : System) (role task : String)
      → Step s (record s {
        pool = insert_placeholder s.pool role task;
        tasks = insert s.pool.next_id waiting s.tasks;
      })
  attaches : (s : System) (id : ℕ) → Step s (record s { pool = attach s.pool id })
  starts :
      (s : System) (id now free : ℕ)
      → lookup id s.tasks ≡ some waiting
      → s.available ≡ suc free
      → Step s (record s {
        pool = mark_running s.pool id now;
        available = free;
        tasks = insert id holding s.tasks;
      })
  finishes :
      (s : System) (id : ℕ) (output : String)
      → lookup id s.tasks ≡ some holding
      → Step s (record s {
        pool = mark_done_status s.pool id;
        tasks = insert id (reporting output) s.tasks;
      })
  records :
      (s : System) (id : ℕ) (output : String)
      → lookup id s.tasks ≡ some (reporting output)
      → Step s (record s {
        pool = record_output s.pool id output;
        available = s.available + 1;
        tasks = insert id ended s.tasks;
      })
  times_out :
      (s : System) (id : ℕ)
      → lookup id s.tasks ≡ some holding
      → Step s (record s {
        pool = mark_timed_out s.pool id;
        available = s.available + 1;
        tasks = insert id ended s.tasks;
      })
  stops : (s : System) (id : ℕ) → Step s (record s { pool = (stop s.pool id).0 })
  cancels_waiting :
      (s : System) (id : ℕ)
      → lookup id s.tasks ≡ some waiting
      → status s.pool id ≡ some killed
      → Step s (record s { tasks = insert id ended s.tasks })
  cancels_holding :
      (s : System) (id : ℕ)
      → lookup id s.tasks ≡ some holding
      → status s.pool id ≡ some killed
      → Step s (record s { available = s.available + 1; tasks = insert id ended s.tasks })
  panics :
      (s : System) (id : ℕ)
      → lookup id s.tasks ≡ some holding
      → Step s (record s { available = s.available + 1; tasks = insert id panicked s.tasks })
  takes_join : (s : System) (id : ℕ) → Step s (record s { pool = (take_join s.pool id).0 })
  reaps :
      (s : System) (id : ℕ)
      → lookup id s.tasks ≡ some ended
      → Step s (record s { pool = reap s.pool id })
  reaps_panicked :
      (s : System) (id : ℕ)
      → lookup id s.tasks ≡ some panicked
      → Step s (record s { pool = reap s.pool id; tasks = insert id ended s.tasks })

pub data Reach (s : System) : System → Type 0 where
  here : Reach s s
  next : {t u : System} → Reach s t → Step t u → Reach s u
