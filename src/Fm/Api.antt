-- ===== src/Fm/Api.antt =====
-- src/FM/pkg/api: the handlers of the API and the checks of their requests. The times and the trace
-- in an answer are left out; a request that does not decode is `none`.
use dash_fabric.Base.{
  ℕ, ◌++◌, List, [], Option, none, some, Bytes, bytes, bytes_eq, ◌==◌, ltb, if◌then◌else◌, length,
}
use dash_fabric.Base.Int.{ℤ, pos}
mod Laws

pub record ProgramDeviceRequest : Type 0 where
  pub eni_id : Bytes
  pub vnet_id : Bytes
  pub version : ℤ
  pub timeout : ℤ

-- The lists of a goal state are empty in every answer.
pub record GoalState : Type 0 where
  pub eni_id : Bytes
  pub vnet_id : Bytes
  pub fingerprint : Bytes
  pub version : ℤ

pub record ProgramDeviceResult : Type 0 where
  pub eni_id : Bytes
  pub status : Bytes
  pub applied_version : ℤ

pub record ErrorResponse : Type 0 where
  pub code : Bytes
  pub message : Bytes

pub data Body : Type 0 where
  no_vnets : Body
  goal_state : GoalState → Body
  device_result : ProgramDeviceResult → Body
  error_response : ErrorResponse → Body

-- WriteJSON: the status code and the body.
abbrev pub Response : Type 0
Response = ℕ × Body

abbrev pub write_error : ℕ → Bytes → Bytes → Response
write_error status code message =
    (status, error_response (record { code = code; message = message }))

unfoldable pub validate_eni_id : Bytes → Option Bytes
validate_eni_id eni_id =
    if eni_id == []
    then some (bytes "ENI ID cannot be empty")
    else (if ltb 50 (length eni_id)
        then some (bytes "ENI ID too long (max 50 characters)")
        else none)

unfoldable pub validate_vnet_id : Bytes → Option Bytes
validate_vnet_id vnet_id =
    if vnet_id == []
    then some (bytes "VNET ID cannot be empty")
    else (if ltb 50 (length vnet_id)
        then some (bytes "VNET ID too long (max 50 characters)")
        else none)

abbrev pub list_vnets : Response
list_vnets = (200, no_vnets)

-- GetGoalState, of the request's ENI
unfoldable pub get_goal_state : Option Bytes → Response
get_goal_state none = write_error 400 (bytes "INVALID_REQUEST") (bytes "Failed to parse request")
get_goal_state (some eni_id) = elim (validate_eni_id eni_id) [
  | some e ↦ write_error 400 (bytes "INVALID_ENI_ID") e
  | none ↦ (
    200,
    goal_state (record {
      eni_id = eni_id;
      vnet_id = bytes "vnet-placeholder";
      fingerprint = bytes "fp-" ++ eni_id ++ bytes "-1";
      version = pos 1;
    }),
  )
]

unfoldable pub program_device : Option ProgramDeviceRequest → Response
program_device none = write_error 400 (bytes "INVALID_REQUEST") (bytes "Failed to parse request")
program_device (some req) = elim (validate_eni_id req.eni_id) [
  | some e ↦ write_error 400 (bytes "INVALID_ENI_ID") e
  | none ↦ elim (validate_vnet_id req.vnet_id) [
    | some e ↦ write_error 400 (bytes "INVALID_VNET_ID") e
    | none ↦ (
      200,
      device_result
          (record { eni_id = req.eni_id; status = bytes "success"; applied_version = req.version }),
    )
  ]
]
