-- ===== src/Examples/PoolCases.antt =====
-- The worker pool at concrete inputs (crates/orchestrator/src/pool.rs): one worker that ends.
use entheai.Base.{◌≡◌, ◌⊎◌, refl, some, none, nat_eq}
use entheai.Base.Assoc.{lookup, insert}
use entheai.Pool
use entheai.Pool.{
  WorkerPool, done, killed, spawn, insert_placeholder, attach, mark_running, mark_done_status,
  record_output, mark_done, reap, status, stop, output_snapshot, in_flight, is_over, update,
}
use entheai.Pool.Tasks.{
  System, start, spawns, starts, finishes, records, Reach, here, next, waiting, holding, reporting,
  ended,
}
use entheai.Pool.Lifecycle.{over_final}

abbrev queued_one : System
queued_one = record (start 1) {
  pool = insert_placeholder (start 1).pool "coder" "parser";
  tasks = insert (start 1).pool.next_id waiting (start 1).tasks;
}

abbrev running_one : System
running_one = record queued_one {
  available = 0;
  pool = mark_running queued_one.pool 0 30;
  tasks = insert 0 holding queued_one.tasks;
}

abbrev done_one : System
done_one = record running_one {
  pool = mark_done_status running_one.pool 0;
  tasks = insert 0 (reporting "patch") running_one.tasks;
}

Reach-running_one : Reach (start 1) running_one
unfolding Pool.new insert_placeholder insert lookup
Reach-running_one =
    next (next here (spawns (start 1) "coder" "parser")) (starts queued_one 0 30 0 refl refl)

Reach-done_one : Reach (start 1) done_one
unfolding Pool.new insert_placeholder insert lookup mark_running
Reach-done_one = next Reach-running_one (finishes running_one 0 "patch" refl)

done_one-status : status done_one.pool 0 ≡ some done
unfolding Pool.new insert_placeholder insert lookup mark_running mark_done_status status update
done_one-status = refl

abbrev ended_one : System
ended_one = record done_one {
  available = 1;
  pool = record_output done_one.pool 0 "patch";
  tasks = insert 0 ended done_one.tasks;
}

done_one-ended_one : Reach done_one ended_one
unfolding Pool.new insert_placeholder insert lookup mark_running mark_done_status
done_one-ended_one = next here (records done_one 0 "patch" refl)

over_final_example :
    (status ended_one.pool 0 ≡ some done)
    ⊎ ((status ended_one.pool 0 ≡ none) × (output_snapshot ended_one.pool 0 ≡ none))
over_final_example =
    over_final 1 0 done done_one ended_one Reach-done_one refl done_one-status done_one-ended_one
