-- ===== src/Swarm/Nodes.antt =====
-- The nodes of the swarm model (crates/viz/src/model.rs): what each event does to the node of each
-- agent, and that the model is one small automaton for each agent.
use entheai.Base.{
  ℕ, suc, ◌+◌, String, ◌≡◌, refl, ◌∙◌, ap, Bool, false, Option, none, some, List, [], ◌∷◌, ◌++◌,
  ◌==◌, ltb, if◌then◌else◌, length, arith, Bool-cases, inl, inr,
}
use entheai.Base.Assoc.{map_option, is_some}
use entheai.Swarm.{
  NodeStatus, pending, running, failed, SwarmNode, SwarmModel, decompose, seed, has_index,
  update_first, coder_started, says_fail, coder_finished, start_integrating, finish,
}

-- The status of the first node with an index.
abbrev pub status_in : ℕ → List SwarmNode → Option NodeStatus
status_in j [] = none
status_in j (n ∷ ns) = if n.index == j then some n.status else status_in j ns

abbrev pub status_at : ℕ → SwarmModel → Option NodeStatus
status_at j m = status_in j m.nodes

status_in-append :
    (j : ℕ) (ns : List SwarmNode) (n : SwarmNode)
    → status_in j (ns ++ n ∷ [])
      ≡ (if has_index j ns then status_in j ns else if n.index == j then some n.status else none)
status_in-append j [] n = refl
status_in-append j (x ∷ ns) n = ground (arith, status_in-append j ns n)

status_in-update_first :
    (j index : ℕ) (f : SwarmNode → SwarmNode) (s : NodeStatus) (ns : List SwarmNode)
    → ((n : SwarmNode) → ((f n).index ≡ n.index) × ((f n).status ≡ s))
    → status_in j (update_first index f ns)
      ≡ (if index == j then map_option (λ (_ : NodeStatus). s) (status_in j ns) else status_in j ns)
status_in-update_first j index f s [] h = ground arith
status_in-update_first j index f s (n ∷ ns) h =
    ground (arith, status_in-update_first j index f s ns h, h n)

has_index-status_in : (j : ℕ) (ns : List SwarmNode) → has_index j ns ≡ is_some (status_in j ns)
has_index-status_in j [] = refl
has_index-status_in j (n ∷ ns) = ground (arith, has_index-status_in j ns)

finished_as : String → NodeStatus
finished_as status = if says_fail status then failed else NodeStatus.done

status_at-coder_started :
    (m : SwarmModel) (index j : ℕ) (role task : String)
    → status_at j (coder_started m index role task)
      ≡ (if index == j then some running else status_at j m)
unfolding coder_started
status_at-coder_started m index j role task = elim (Bool-cases (has_index index m.nodes)) [
  | inl known ↦ ground (
    arith,
    known,
    status_in-update_first j index (λ n. record n { status = running }) running m.nodes
        (λ n. (refl, refl)),
    has_index-status_in index m.nodes,
  )
  | inr new ↦ ground (
    arith,
    new,
    status_in-append j m.nodes
        (record { index = index; role = role; task = task; status = running; committed = false }),
    has_index-status_in j m.nodes,
    has_index-status_in index m.nodes,
  )
]

status_at-coder_finished :
    (m : SwarmModel) (index j : ℕ) (committed : Bool) (status : String)
    → status_at j (coder_finished m index committed status) ≡ (
        if index == j
        then map_option (λ (_ : NodeStatus). finished_as status) (status_at j m)
        else status_at j m)
unfolding coder_finished finished_as
status_at-coder_finished m index j committed status =
    status_in-update_first j index
      (λ n. record n {
        committed = committed;
        status = if says_fail status then failed else NodeStatus.done;
      })
      (finished_as status) m.nodes (λ n. (refl, refl))

status_in-seed :
    (j k : ℕ) (tasks : List (String × String))
    → status_in j (seed k tasks)
      ≡ (if ltb j k then none else if ltb j (k + length tasks) then some pending else none)
status_in-seed j k [] = ground arith
status_in-seed j k ((role, task) ∷ ts) = ground (arith, status_in-seed j (suc k) ts)

-- The events of a run after its decomposition.
pub data Event : Type 0 where
  started : ℕ → String → String → Event
  finished : ℕ → Bool → String → Event
  integrates : ℕ → Event
  ends : Option String → ℕ → ℕ → Event

abbrev pub apply : SwarmModel → Event → SwarmModel
apply m (started index role task) = coder_started m index role task
apply m (finished index committed status) = coder_finished m index committed status
apply m (integrates n) = start_integrating m n
apply m (ends branch merged conflicted) = finish m branch merged conflicted

abbrev pub apply_all : SwarmModel → List Event → SwarmModel
apply_all m [] = m
apply_all m (e ∷ es) = apply_all (apply m e) es

-- One agent on its own: it is unknown, or has a status.
abbrev pub agent_step : ℕ → Event → Option NodeStatus → Option NodeStatus
agent_step j (started index _ _) o = if index == j then some running else o
agent_step j (finished index _ status) none = none
agent_step j (finished index _ status) (some s) =
    if index == j then (if says_fail status then some failed else some NodeStatus.done) else some s
agent_step j (integrates _) o = o
agent_step j (ends _ _ _) o = o

abbrev pub agent_run : ℕ → List Event → Option NodeStatus → Option NodeStatus
agent_run j [] o = o
agent_run j (e ∷ es) o = agent_run j es (agent_step j e o)

status_at-apply :
    (j : ℕ) (m : SwarmModel) (e : Event) → status_at j (apply m e) ≡ agent_step j e (status_at j m)
unfolding start_integrating finish
status_at-apply j m (started index role task) = status_at-coder_started m index j role task
status_at-apply j m (finished index committed status) =
    unfold finished_as in ground (arith, status_at-coder_finished m index j committed status)
status_at-apply j m (integrates n) = refl
status_at-apply j m (ends branch merged conflicted) = refl

status_at-apply_all :
    (j : ℕ) (m : SwarmModel) (es : List Event)
    → status_at j (apply_all m es) ≡ agent_run j es (status_at j m)
status_at-apply_all j m [] = refl
status_at-apply_all j m (e ∷ es) =
    status_at-apply_all j (apply m e) es ∙ ap (agent_run j es) (status_at-apply j m e)

-- The swarm model is one automaton for each agent: after a decomposition into `tasks` and any events,
-- the status of agent `j` is what the events leave of it alone, from pending when `j` is the number
-- of a task and from unknown otherwise. No event of another agent, and no order between two agents'
-- events, makes a difference, and an agent that started without being seeded is there.
pub apply_all-agent_run :
    (tasks : List (String × String)) (es : List Event) (j : ℕ)
    → status_at j (apply_all (decompose tasks) es)
      ≡ agent_run j es (if ltb j (length tasks) then some pending else none)
unfolding decompose
apply_all-agent_run tasks es j =
    status_at-apply_all j (decompose tasks) es
    ∙ ap (agent_run j es) (ground (arith, status_in-seed j 0 tasks))
