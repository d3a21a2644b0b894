-- ===== src/Swarm.antt =====
-- crates/viz/src/model.rs: the swarm model, a fold of a fan-out's events.
pub mod Counts
pub mod Nodes
use entheai.Base.{
  ℕ, suc, String, Bool, true, false, ◌||◌, Option, none, some, List, [], ◌∷◌, ◌++◌, any, count_if,
  ◌==◌, if◌then◌else◌,
}
use entheai.Base.Text.{codes, contains, to_ascii_lowercase}

pub data NodeStatus : Type 0 where
  pending running done failed : NodeStatus

pub record SwarmNode : Type 0 where
  pub index : ℕ
  pub role : String
  pub task : String
  pub status : NodeStatus
  pub committed : Bool

pub data Phase : Type 0 where
  idle fanning integrating done : Phase

pub record SwarmModel : Type 0 where
  pub nodes : List SwarmNode
  pub phase : Phase
  pub integrating_branches : ℕ
  pub merged : ℕ
  pub conflicted : ℕ
  pub integration_branch : Option String

unfoldable pub new : SwarmModel
new = record {
  nodes = [];
  phase = Phase.idle;
  integrating_branches = 0;
  merged = 0;
  conflicted = 0;
  integration_branch = none;
}

-- One pending node for each sub-task, numbered from `index` on.
abbrev pub seed : ℕ → List (String × String) → List SwarmNode
seed index [] = []
seed index ((role, task) ∷ ts) =
    record { index = index; role = role; task = task; status = pending; committed = false }
    ∷ seed (suc index) ts

unfoldable pub decompose : List (String × String) → SwarmModel
unfolding new
decompose tasks = record new { phase = Phase.fanning; nodes = seed 0 tasks }

abbrev pub phase_active : Phase → Bool
phase_active Phase.fanning = true
phase_active Phase.integrating = true
phase_active _ = false

unfoldable pub is_active : SwarmModel → Bool
is_active m = phase_active m.phase

abbrev pub has_index : ℕ → List SwarmNode → Bool
has_index index nodes = any (λ n. n.index == index) nodes

-- `iter_mut().find(|n| n.index == index)` and a change of the node that is found.
abbrev pub update_first : ℕ → (SwarmNode → SwarmNode) → List SwarmNode → List SwarmNode
update_first index f [] = []
update_first index f (n ∷ ns) = if n.index == index then f n ∷ ns else n ∷ update_first index f ns

abbrev wake : Phase → Phase
wake Phase.idle = Phase.fanning
wake ph = ph

unfoldable pub coder_started : SwarmModel → ℕ → String → String → SwarmModel
coder_started m index role task = record m {
  nodes =
      if has_index index m.nodes
      then update_first index (λ n. record n { status = running }) m.nodes
      else m.nodes
        ++ record { index = index; role = role; task = task; status = running; committed = false }
          ∷ [];
  phase = wake m.phase;
}

-- Whether the human summary says that the coder failed.
unfoldable pub says_fail : String → Bool
unfolding contains to_ascii_lowercase
says_fail status = contains (to_ascii_lowercase (codes status)) (codes "fail")

unfoldable pub coder_finished : SwarmModel → ℕ → Bool → String → SwarmModel
coder_finished m index committed status = record m {
  nodes =
      update_first index
        (λ n. record n {
          committed = committed;
          status = if says_fail status then failed else NodeStatus.done;
        })
        m.nodes;
}

unfoldable pub start_integrating : SwarmModel → ℕ → SwarmModel
start_integrating m branches = record m {
  integrating_branches = branches;
  phase = Phase.integrating;
}

unfoldable pub finish : SwarmModel → Option String → ℕ → ℕ → SwarmModel
finish m integration_branch merged conflicted = record m {
  phase = Phase.done;
  integration_branch = integration_branch;
  merged = merged;
  conflicted = conflicted;
}

abbrev pub is_running : SwarmNode → Bool
is_running n = elim n.status [ running ↦ true | _ ↦ false ]

abbrev pub is_done : SwarmNode → Bool
is_done n = elim n.status [ NodeStatus.done ↦ true | _ ↦ false ]

abbrev pub is_failed : SwarmNode → Bool
is_failed n = elim n.status [ failed ↦ true | _ ↦ false ]

unfoldable pub running_count : SwarmModel → ℕ
running_count m = count_if is_running m.nodes

unfoldable pub done_count : SwarmModel → ℕ
done_count m = count_if is_done m.nodes

unfoldable pub failed_count : SwarmModel → ℕ
failed_count m = count_if is_failed m.nodes
