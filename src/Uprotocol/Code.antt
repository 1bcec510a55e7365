-- ===== src/Uprotocol/Code.antt =====
-- threadx-app/cross/app/src/uprotocol_v1.rs: the status codes.
use Prim.Native.String.{String}
use threadx_rust.Base.{ℕ, Option, List, [], ◌∷◌}
use threadx_rust.Uprotocol.Match.{match_name}

pub data UCode : Type 0 where
  ok : UCode
  cancelled : UCode
  unknown : UCode
  invalid_argument : UCode
  deadline_exceeded : UCode
  not_found : UCode
  already_exists : UCode
  permission_denied : UCode
  unauthenticated : UCode
  resource_exhausted : UCode
  failed_precondition : UCode
  aborted : UCode
  out_of_range : UCode
  unimplemented : UCode
  internal : UCode
  unavailable : UCode
  data_loss : UCode

-- The discriminants of `UCode`.
unfoldable pub u_code_value : UCode → ℕ
u_code_value ok = 0
u_code_value cancelled = 1
u_code_value unknown = 2
u_code_value invalid_argument = 3
u_code_value deadline_exceeded = 4
u_code_value not_found = 5
u_code_value already_exists = 6
u_code_value permission_denied = 7
u_code_value unauthenticated = 16
u_code_value resource_exhausted = 8
u_code_value failed_precondition = 9
u_code_value aborted = 10
u_code_value out_of_range = 11
u_code_value unimplemented = 12
u_code_value internal = 13
u_code_value unavailable = 14
u_code_value data_loss = 15

-- `UCode::as_str_name`
unfoldable pub u_code_name : UCode → String
u_code_name ok = "OK"
u_code_name cancelled = "CANCELLED"
u_code_name unknown = "UNKNOWN"
u_code_name invalid_argument = "INVALID_ARGUMENT"
u_code_name deadline_exceeded = "DEADLINE_EXCEEDED"
u_code_name not_found = "NOT_FOUND"
u_code_name already_exists = "ALREADY_EXISTS"
u_code_name permission_denied = "PERMISSION_DENIED"
u_code_name unauthenticated = "UNAUTHENTICATED"
u_code_name resource_exhausted = "RESOURCE_EXHAUSTED"
u_code_name failed_precondition = "FAILED_PRECONDITION"
u_code_name aborted = "ABORTED"
u_code_name out_of_range = "OUT_OF_RANGE"
u_code_name unimplemented = "UNIMPLEMENTED"
u_code_name internal = "INTERNAL"
u_code_name unavailable = "UNAVAILABLE"
u_code_name data_loss = "DATA_LOSS"

-- The arms of `UCode::from_str_name`, in their order.
abbrev pub u_code_arms : List (String × UCode)
u_code_arms =
    ("OK", ok)
    ∷ ("CANCELLED", cancelled)
    ∷ ("UNKNOWN", unknown)
    ∷ ("INVALID_ARGUMENT", invalid_argument)
    ∷ ("DEADLINE_EXCEEDED", deadline_exceeded)
    ∷ ("NOT_FOUND", not_found)
    ∷ ("ALREADY_EXISTS", already_exists)
    ∷ ("PERMISSION_DENIED", permission_denied)
    ∷ ("UNAUTHENTICATED", unauthenticated)
    ∷ ("RESOURCE_EXHAUSTED", resource_exhausted)
    ∷ ("FAILED_PRECONDITION", failed_precondition)
    ∷ ("ABORTED", aborted)
    ∷ ("OUT_OF_RANGE", out_of_range)
    ∷ ("UNIMPLEMENTED", unimplemented)
    ∷ ("INTERNAL", internal)
    ∷ ("UNAVAILABLE", unavailable)
    ∷ ("DATA_LOSS", data_loss)
    ∷ []

-- `UCode::from_str_name`
unfoldable pub u_code_from_name : String → Option UCode
u_code_from_name value = match_name value u_code_arms
