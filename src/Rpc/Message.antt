-- ===== src/Rpc/Message.antt =====
-- Requests, errors and responses of JSON-RPC (pkg/rpc/errors.go, request.go, response.go, rpc.go).
-- `V` is Go's `any` without nil: a value that may be nil is an Option. A pointer that may be nil is
-- an Option too.
use mango_hub.Base.{Bool, not, Option, none, some, [], Bytes, codes, eqb, trim_space, if◌then◌else◌}
use mango_hub.Base.Int.{ℤ, negsuc}

-- The error codes.
abbrev pub parse_error : ℤ
parse_error = negsuc 32699

abbrev pub invalid_request : ℤ
invalid_request = negsuc 32599

abbrev pub method_not_found : ℤ
method_not_found = negsuc 32600

abbrev pub internal_error : ℤ
internal_error = negsuc 32602

abbrev pub permission_denied : ℤ
permission_denied = negsuc 32040

abbrev pub rpc_version : Bytes
rpc_version = codes "2.0"

-- JsonRpcError
pub record Error (V : Type 0) : Type 0 where
  pub code : ℤ
  pub message : Bytes
  pub extra : Option V

-- JsonRpcRequest
pub record Request (V : Type 0) : Type 0 where
  pub version : Bytes
  pub method : Bytes
  pub params : Option V
  pub id : Option V

-- JsonRpcResponse
pub record Response (V : Type 0) : Type 0 where
  pub version : Bytes
  pub id : Option V
  pub result : Option V
  pub error : Option (Error V)

module _ {V : Type 0} where
  -- MakeError
  unfoldable pub make_error : ℤ → Bytes → Option V → Error V
  make_error code message extra = record { code = code; message = message; extra = extra }

  -- NewRequest
  unfoldable pub new_request : Option V → Bytes → Option V → Request V
  new_request id method params = record {
    version = rpc_version;
    method = method;
    params = params;
    id = id;
  }

  -- NewNotification
  unfoldable pub new_notification : Bytes → Option V → Request V
  new_notification method params = record {
    version = rpc_version;
    method = method;
    params = params;
    id = none;
  }

  unfoldable pub has_id : Option (Request V) → Bool
  has_id none = Bool.false
  has_id (some r) = elim r.id [ none ↦ Bool.false | some _ ↦ Bool.true ]

  -- Validate; `none` is a nil error.
  unfoldable pub validate : Option (Request V) → Option (Error V)
  validate none = some (make_error invalid_request (codes "invalid request: null") none)
  validate (some r) =
      if not (eqb r.version rpc_version)
      then some (make_error invalid_request (codes "invalid jsonrpc version") none)
      else if eqb (trim_space r.method) []
      then some (make_error invalid_request (codes "method required") none)
      else none

  unfoldable pub success_response : Option V → Option V → Response V
  success_response id result = record {
    version = rpc_version;
    id = id;
    result = result;
    error = none;
  }

  unfoldable pub error_response : Option V → ℤ → Bytes → Option V → Response V
  error_response id code msg extra = record {
    version = rpc_version;
    id = id;
    result = none;
    error = some (record { code = code; message = msg; extra = extra });
  }

  -- InternalErrorResponse; the argument is err.Error() of an error that is not nil.
  unfoldable pub internal_error_response : Option V → Option Bytes → Response V
  unfolding error_response
  internal_error_response id none = error_response id internal_error (codes "internal error") none
  internal_error_response id (some msg) = error_response id internal_error msg none

  -- (*JsonRpcError).ResponseWithID and Response
  unfoldable pub response_with_id : Error V → Option V → Response V
  response_with_id e id = record { version = rpc_version; id = id; result = none; error = some e }

  unfoldable pub response_of : Error V → Response V
  unfolding response_with_id
  response_of e = response_with_id e none
