-- ===== src/Examples/Direct.antt =====
-- A run of the direct sessions: a stream whose capture policy is no object.
use insight_io.Base.{◌≡◌, refl, true, false, none, some, [], ◌∷◌, codes, text_eq, Error}
use insight_io.Catalog.Tables.{DeviceRow, StreamRow}
use insight_io.Runtime.State.{empty_registry}
use insight_io.Uri.{
  parse_insight_uri, parse_remainder, parse_path, check_selector, validate_local_uri_host,
  derive_uri,
}
use insight_io.Uri.Split.{strip_prefix, split_at, contains}
use insight_io.Base.Map.{lookup, insert, erase}
use insight_io.Direct.Rows.{
  SessionRow, device_of, find_session, find_asked, find_joined, parse_json, read_source,
  hydrate_session,
}
use insight_io.Direct.Service.{
  Surroundings, ServiceState, remove_session, remove_logs, is_referenced, delete_session_row,
  enrich_runtime, get_session, lookup_stream,
}
use insight_io.Direct.Lifecycle.{
  attach_planned, attach_active, attach_session_runtime, settle_created, attach_created,
  insert_direct, insert_found, create_parsed, create_direct_session,
}
use insight_io.Runtime.Sessions.{attach, attach_entry}
use insight_io.Runtime.Realize.{realize_runtime}
use insight_io.Runtime.Plan.{build_runtime_plan}
use insight_io.Runtime.Views.{view_for_session}
use insight_io.Direct.Failed.{create_direct_session-failed}
use insight_io.Examples.Values.{values}
use insight_io.Examples.{system, answers}

abbrev camera_row : DeviceRow
camera_row = record {
  device_id = 1;
  device_key = codes "camera";
  public_name = codes "cam";
  driver = codes "v4l2";
  status = codes "online";
  metadata_json = [];
  last_seen_at_ms = 0;
  created_at_ms = 0;
  updated_at_ms = 0;
}

abbrev main_row : StreamRow
main_row = record {
  stream_id = 3;
  device_id = 1;
  selector = codes "720p_30";
  public_name = codes "main";
  media_kind = codes "video";
  shape_kind = codes "exact";
  channel = none;
  group_key = none;
  caps_json = codes "{}";
  capture_policy_json = some (codes "nothing");
  members_json = none;
  publications_json = codes "{}";
  is_present = true;
  created_at_ms = 0;
  updated_at_ms = 0;
}

abbrev other_session : SessionRow
other_session = record {
  session_id = 1;
  stream_id = 3;
  session_kind = codes "app";
  rtsp_enabled = false;
  request_json = codes "{}";
  resolved_members_json = none;
  state = codes "stopped";
  last_error = none;
  started_at_ms = none;
  stopped_at_ms = none;
  created_at_ms = 0;
  updated_at_ms = 0;
}

abbrev service : ServiceState
service = record {
  database = record {
    catalog = record { devices = camera_row ∷ []; streams = main_row ∷ [] };
    sessions = other_session ∷ [];
    app_sources = [];
    logs = [];
  };
  registry = empty_registry;
}

abbrev at : Surroundings
at = record {
  uri_host = codes "localhost";
  rtsp_host = codes "127.0.0.1:8554";
  socket_path = codes "/tmp/insight.sock";
  db = record { prepares = λ _. true; runs = λ _ _. true; next_id = λ ids. 2 };
  build = record { has_pipewire = false; has_orbbec = false };
  system = system;
  answers = answers;
  publisher_error = [];
  timestamp = 5;
}

abbrev refusal : Error
refusal = record {
  code = codes "runtime_config_invalid";
  message = codes "capture_policy_json must be an object";
}

create_direct_session-failed_example :
    (create_direct_session values at
      (codes "insightos://localhost/cam/main")
      true
      service).1.database.sessions
    ≡ other_session ∷ []
unfolding create_direct_session create_parsed insert_found insert_direct attach_created
    settle_created attach_session_runtime attach_active attach_planned build_runtime_plan attach
    attach_entry realize_runtime parse_insight_uri parse_remainder parse_path check_selector
    strip_prefix split_at contains validate_local_uri_host text_eq lookup_stream find_asked
    device_of read_source parse_json derive_uri get_session find_session hydrate_session find_joined
    enrich_runtime lookup erase insert view_for_session delete_session_row remove_session
    is_referenced remove_logs
create_direct_session-failed_example =
    create_direct_session-failed values at (codes "insightos://localhost/cam/main") true service 500
      refusal (record { deletes = λ d. refl; fresh = refl; free = refl }) refl
