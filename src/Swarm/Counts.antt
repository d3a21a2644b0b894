-- ===== src/Swarm/Counts.antt =====
-- The counters of the swarm model (crates/viz/src/model.rs).
use entheai.Base.{
  ℕ, suc, ◌+◌, ◌≤◌, ◌≡◌, refl, Bool, true, false, String, List, [], ◌∷◌, count_if, length,
  length-append, arith, if◌then◌else◌, Bool-cases, inl, inr,
}
use entheai.Swarm.{
  NodeStatus, pending, running, failed, SwarmNode, SwarmModel, running_count, done_count,
  failed_count, is_running, is_done, is_failed, coder_started, coder_finished, decompose, seed,
  has_index, update_first, says_fail, start_integrating, finish,
}
use entheai.Swarm.Nodes.{Event, started, finished, integrates, ends, apply_all}

abbrev pub is_pending : SwarmNode → Bool
is_pending n = elim n.status [ pending ↦ true | _ ↦ false ]

partition :
    (ns : List SwarmNode)
    → count_if is_running ns + count_if is_done ns + count_if is_failed ns + count_if is_pending ns
      ≡ length ns
partition [] = refl
partition (n ∷ ns) = ground (arith, partition ns)

length-update_first :
    (index : ℕ) (f : SwarmNode → SwarmNode) (ns : List SwarmNode)
    → length (update_first index f ns) ≡ length ns
length-update_first index f [] = refl
length-update_first index f (n ∷ ns) = ground (arith, length-update_first index f ns)

length-seed : (k : ℕ) (tasks : List (String × String)) → length (seed k tasks) ≡ length tasks
length-seed k [] = refl
length-seed k ((role, task) ∷ ts) = omega (arith, length-seed (suc k) ts)

length-coder_started :
    (m : SwarmModel) (index : ℕ) (role task : String)
    → (length m.nodes ≤ length (coder_started m index role task).nodes)
      × (length (coder_started m index role task).nodes ≤ length m.nodes + 1)
unfolding coder_started
length-coder_started m index role task = elim (Bool-cases (has_index index m.nodes)) [
  | inl e ↦
      rw e (ground (arith, length-update_first index (λ n. record n { status = running }) m.nodes))
  | inr e ↦ rw e (
      ground (
        arith,
        length-append m.nodes (
            record { index = index; role = role; task = task; status = running; committed = false }
            ∷ []),
      ))
]

abbrev pub starts : List Event → ℕ
starts [] = 0
starts (started _ _ _ ∷ es) = suc (starts es)
starts (_ ∷ es) = starts es

length-apply_all :
    (m : SwarmModel) (es : List Event)
    → (length m.nodes ≤ length (apply_all m es).nodes)
      × (length (apply_all m es).nodes ≤ length m.nodes + starts es)
unfolding coder_finished start_integrating finish
length-apply_all m [] = omega arith
length-apply_all m (started index role task ∷ es) = omega (
  arith,
  length-coder_started m index role task,
  length-apply_all (coder_started m index role task) es,
)
length-apply_all m (finished index committed status ∷ es) = omega (
  arith,
  length-update_first index
      (λ n. record n {
        committed = committed;
        status = if says_fail status then failed else NodeStatus.done;
      })
      m.nodes,
  length-apply_all (coder_finished m index committed status) es,
)
length-apply_all m (integrates n ∷ es) = length-apply_all (start_integrating m n) es
length-apply_all m (ends branch merged conflicted ∷ es) =
    length-apply_all (finish m branch merged conflicted) es

-- After a decomposition into `tasks` and any events, every node is counted exactly once, as running,
-- done, failed or pending; there are at least as many nodes as tasks, and at most one more for each
-- start.
pub apply_all-counts :
    (tasks : List (String × String)) (es : List Event)
    → let m = apply_all (decompose tasks) es in
      (running_count m + done_count m + failed_count m + count_if is_pending m.nodes
        ≡ length m.nodes)
      × (length tasks ≤ length m.nodes)
      × (length m.nodes ≤ length tasks + starts es)
unfolding running_count done_count failed_count decompose
apply_all-counts tasks es =
    let (low, high) = length-apply_all (decompose tasks) es in
    (
      partition (apply_all (decompose tasks) es).nodes,
      omega (arith, low, length-seed 0 tasks),
      omega (arith, high, length-seed 0 tasks),
    )
