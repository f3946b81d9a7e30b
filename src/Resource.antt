-- ===== src/Resource.antt =====
-- The values of the plugin SDK's package `resource` that the provisioners exchange with the host,
-- with the fields that this repository reads or writes. An empty Go string in `ErrorCode` is
-- `none`; JSON properties are bytes here, a text.
use formae_plugin_kubernetes.Prelude.{String, Option, none, Bool, true, false}

pub data Operation : Type 0 where
  create read update delete check_status list : Operation

pub data OperationStatus : Type 0 where
  success failure in_progress : OperationStatus

pub data ErrorCode : Type 0 where
  unforeseen_error not_found resource_conflict general_service_exception : ErrorCode
  service_timeout network_failure : ErrorCode
  other : String → ErrorCode

pub record ProgressResult : Type 0 where
  pub operation : Option Operation
  pub status : OperationStatus
  pub error_code : Option ErrorCode
  pub status_message : String
  pub native_id : String
  pub request_id : String
  pub properties : String

-- A zero `ProgressResult` but for its status: what a composite literal leaves out is empty.
abbrev pub progress : OperationStatus → ProgressResult
progress s = record {
  operation = none;
  status = s;
  error_code = none;
  status_message = "";
  native_id = "";
  request_id = "";
  properties = "";
}

abbrev pub is_in_progress : OperationStatus → Bool
is_in_progress in_progress = true
is_in_progress _ = false

abbrev pub is_success : OperationStatus → Bool
is_success success = true
is_success _ = false

-- Create, Update, Delete and Status results wrap a progress result; Go's nil pointers are `none`.
pub record Wrapped : Type 0 where
  pub progress_result : Option ProgressResult
