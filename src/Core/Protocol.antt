-- ===== src/Core/Protocol.antt =====
-- crates/latte-core/src/protocol.rs: the data of the runtime protocol. An identifier is a UUID, a
-- number; revisions and times are numbers, with the bounds of `u64` where the code checks them.
use latte_code.Base.{ℕ, String, List, Bool, true, false}

abbrev pub TurnId : Type 0
TurnId = ℕ

abbrev pub EventId : Type 0
EventId = ℕ

pub data TurnStatus : Type 0 where
  queued running waiting_permission waiting_input : TurnStatus
  cancelling interrupted failed completed : TurnStatus

pub data PermissionDecision : Type 0 where
  allow deny : PermissionDecision

pub record PendingPermission : Type 0 where
  pub request_id : String
  pub operation_digest : String
  pub description : String

pub record PendingInput : Type 0 where
  pub request_id : String
  pub prompt : String

pub data Retryability : Type 0 where
  retryable terminal : Retryability

pub data FailureCode : Type 0 where
  cancelled permission_denied verification_failed runtime_failed : FailureCode

pub record TurnFailure : Type 0 where
  pub code : FailureCode
  pub message : String
  pub retryability : Retryability

pub data VerificationStatus : Type 0 where
  passed failed not_run : VerificationStatus

pub record Evidence : Type 0 where
  pub name : String
  pub status : VerificationStatus
  pub summary : String

pub record Handoff : Type 0 where
  pub summary : String
  pub files_changed : List String
  pub evidence : List Evidence

pub data RuntimeEvent : Type 0 where
  state_changed : TurnStatus → RuntimeEvent
  tool_started : String → RuntimeEvent
  tool_completed : String → Bool → RuntimeEvent
  evidence_recorded : Evidence → RuntimeEvent
  handoff_produced : Handoff → RuntimeEvent

pub record EventEnvelope : Type 0 where
  pub protocol_version : ℕ
  pub event_id : EventId
  pub turn_id : TurnId
  pub revision : ℕ
  pub event : RuntimeEvent

-- `PROTOCOL_VERSION`.
abbrev pub protocol_version : ℕ
protocol_version = 1

abbrev pub is_completed : TurnStatus → Bool
is_completed TurnStatus.completed = true
is_completed _ = false

abbrev pub is_passed : VerificationStatus → Bool
is_passed VerificationStatus.passed = true
is_passed _ = false

abbrev pub is_retryable : Retryability → Bool
is_retryable Retryability.retryable = true
is_retryable Retryability.terminal = false
