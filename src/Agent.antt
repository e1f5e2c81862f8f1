-- ===== src/Agent.antt =====
-- zen_ma2_agent/core.py: the state of `AgentCore` that decides what may run on the console. `actions`,
-- `_active_action_id` and `_root_workflow_status` are the approval registry; `Side` is the rest of the
-- state that these methods write. `sent` lists what was handed to the MA2 client, oldest first, and
-- `events` the kinds that were emitted: a listener's work and the snapshots are left out.
pub mod Queue
pub mod Context
pub mod Approve
pub mod Lifecycle
pub mod Preserve
pub mod Steps
pub mod Gates
pub mod Sent
pub mod Composition
mod Tests
use Prim.Native.String.{String}
use zen_ma2_agent.Prelude.{Bool, Option, none, List, [], ◌∷◌, ◌++◌}
use zen_ma2_agent.Prelude.Eq.{string_eq}
use zen_ma2_agent.Prelude.Dict.{Dict}
use zen_ma2_agent.State.{StateStore}
use zen_ma2_agent.Workflow.{Intent, WorkflowPlan}

pub data Status : Type 0 where
  pending_approval approved executed failed cancelled : Status

pub record ActionRecord : Type 0 where
  pub id : String
  pub workflow : WorkflowPlan
  pub status : Status
  pub result : Option String
  pub execution_skill_id : Option String
  pub execution_intent : Option Intent

pub record RootStatus : Type 0 where
  pub state : String
  pub phase : String
  pub action_id : Option String

pub record ChatEntry : Type 0 where
  pub role : String
  pub kind : String
  pub text : String
  pub action_id : Option String

pub record Side : Type 0 where
  pub progress : String
  pub chat : List ChatEntry
  pub events : List String
  pub store : StateStore
  pub sent : List String
  pub isolated_geometry_test_loaded : Bool

pub record AgentCore : Type 0 where
  pub actions : Dict String ActionRecord
  pub active_action_id : Option String
  pub root_workflow_status : RootStatus
  pub side : Side

-- `self.progress = …`, `self.events.emit(…)` and `self.chat.append(…)`
abbrev pub progressing : String → Side → Side
progressing text s = record s { progress = text }

abbrev pub emit : String → Side → Side
emit kind s = record s { events = s.events ++ kind ∷ [] }

abbrev pub say : ChatEntry → Side → Side
say entry s = record s { chat = s.chat ++ entry ∷ [] }
