-- ===== src/Helm/Flight/Results.antt =====
-- release.go and flight_lifecycle.go: the results that callers get about a flight.
use formae_plugin_kubernetes.Prelude.{String, ◌<>◌, Bool, some, if◌then◌else◌}
use formae_plugin_kubernetes.Prov.NativeId.{native_id}
use formae_plugin_kubernetes.Resource.{
  ProgressResult, Wrapped, ErrorCode, progress, failure, in_progress, resource_conflict,
  check_status,
}
use formae_plugin_kubernetes.Helm.RequestId.{request_id}
use formae_plugin_kubernetes.Helm.Flight.{Flight}

-- release.go: the native id is withheld until a first install is fully deployed.
unfoldable pub native_id_unless : Bool → String → String → String
unfolding native_id
native_id_unless withhold ns name = if withhold then "" else native_id ns name

-- release.go: `failure` and `inProgress`.
unfoldable pub failure_result : String → ErrorCode → String → Wrapped
failure_result native code message = record {
  progress_result = some (record (progress failure) {
    operation = some check_status;
    native_id = native;
    error_code = some code;
    status_message = message;
  });
}

unfoldable pub in_progress_result : String → String → String → String → Wrapped
in_progress_result native request properties message = record {
  progress_result = some (record (progress in_progress) {
    operation = some check_status;
    request_id = request;
    native_id = native;
    properties = properties;
    status_message = message;
  });
}

unfoldable pub flight_request_id : String → String → Flight → String
unfolding request_id
flight_request_id ns name f = request_id ns name f.revision f.op <> "#" <> f.generation

unfoldable pub flight_conflict : String → String → ProgressResult
flight_conflict ns name = record (progress failure) {
  error_code = some resource_conflict;
  status_message =
      "release " <> ns <> "/" <> name
      <> " belongs to a different or still preparing Helm operation";
}

unfoldable pub flight_progress : String → String → Flight → Bool → ProgressResult
unfolding flight_request_id native_id_unless
flight_progress ns name f is_create = record (progress in_progress) {
  native_id = native_id_unless is_create ns name;
  request_id = flight_request_id ns name f;
  status_message = "Helm operation running";
}
