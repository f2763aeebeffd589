-- ===== src/Runs/Rows.antt =====
-- The rows that agent_runtime/store.py reads and writes.
use hommey.Plan.{PublicPlan}
use hommey.Prelude.{
  Bool, Dict, List, Option, String, false, not, true, ℕ, ◌&&◌, ◌==◌, String_eq, ℕ_eq,
}

pub data RunStatus : Type 0 where
  running completed interrupted failed : RunStatus

abbrev pub is_running : RunStatus → Bool
is_running running = true
is_running _ = false

abbrev pub is_completed : RunStatus → Bool
is_completed completed = true
is_completed _ = false

-- A JSON checkpoint, of which only `public_plan` is read by the store.
pub record Checkpoint : Type 0 where
  pub json : String
  pub public_plan : Option PublicPlan

-- `context_data` of a trip: the JSON texts of its fields.
abbrev pub Trip : Type 0
Trip = Dict String

pub record Receipt : Type 0 where
  pub trip : Trip
  pub version : ℕ
  pub preferences_updated : Bool

-- A row of `supervisor_runs`.
pub record Run : Type 0 where
  pub user_id : String
  pub session_id : String
  pub request_id : String
  pub input_hash : String
  pub owner : String
  pub status : RunStatus
  pub cancel_requested : Bool
  pub checkpoint : Checkpoint
  pub response : Option String
  pub mutations : Dict Receipt
  pub retention_until : ℕ
  pub created_at : ℕ
  pub updated_at : ℕ

-- A row of `conversation_sessions`.
pub record Session : Type 0 where
  pub session_id : String
  pub user_id : String
  pub close_reason : Option String

-- A row of `active_trip_contexts`.
pub record TripContext : Type 0 where
  pub user_id : String
  pub session_id : String
  pub status : String
  pub context_data : Trip
  pub completed_at : Option ℕ

-- A row of `supervisor_trip_records`.
pub record TripRecord : Type 0 where
  pub trip_id : String
  pub user_id : String
  pub session_id : String
  pub record_state : String
  pub context_data : Trip

-- The two preference tables map a user and a key to a value and the time of its last change.
pub record Db : Type 0 where
  pub sessions : List Session
  pub runs : List Run
  pub trips : List TripContext
  pub records : List TripRecord
  pub travel_preferences : Dict (Dict (String × ℕ))
  pub user_preferences : Dict (Dict (String × ℕ))

-- Who asks: `session_key` is `stable_uuid(session_id, namespace="session")`.
pub record Scope : Type 0 where
  pub user_id : String
  pub request_id : String
  pub session_id : String
  pub session_key : String

pub data StoreError : Type 0 where
  request_reused superseded runtime_stopped trip_changed record_mismatch unknown_preference :
      StoreError

-- `safe_checkpoint`, of checkpoints and of responses
pub record Sanitizer : Type 0 where
  pub safe : Checkpoint → Checkpoint
  pub safe_response : String → String

-- WHERE user_id AND request_id
abbrev pub is_request : Scope → Run → Bool
is_request scope r = r.user_id == scope.user_id && r.request_id == scope.request_id

-- WHERE (user_id, request_id, session_id) = _key(scope)
abbrev pub is_key : Scope → Run → Bool
is_key scope r = is_request scope r && r.session_id == scope.session_key

-- WHERE user_id AND session_id
abbrev pub in_session : Scope → Run → Bool
in_session scope r = r.user_id == scope.user_id && r.session_id == scope.session_key

-- … AND owner AND status='running' AND NOT cancel_requested
abbrev pub is_owned : Scope → String → Run → Bool
is_owned scope owner r =
    is_key scope r && r.owner == owner && is_running r.status && not r.cancel_requested
