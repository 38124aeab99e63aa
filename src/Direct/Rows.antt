-- ===== src/Direct/Rows.antt =====
-- The tables that `SessionService` of backend/src/session_service.cpp works on, and what it reads of
-- them: the rows that `lookup_stream` and `get_session` select, and `hydrate_session`.
--
-- Where a query may match several rows, the first one in the order of the table counts. A stream has
-- its device, as the schema's foreign key demands.
use insight_io.Base.{
  ℕ, Bool, not, ◌&&◌, ◌||◌, Option, none, some, List, [], ◌∷◌, ◌==◌, if◌then◌else◌, Text, codes,
  text_eq, is_empty,
}
use insight_io.Json.{JsonApi}
use insight_io.Uri.{ParsedInsightUri, derive_uri, derive_rtsp_url}
use insight_io.Catalog.Tables.{DeviceRow, StreamRow, Tables}
use insight_io.Catalog.Repository.Load.{text_of}
use insight_io.Runtime.Views.{ServingRuntimeView}

pub record SessionResolvedSource (J : JsonApi) : Type 0 where
  pub stream_id : ℕ
  pub device_key : Text
  pub public_name : Text
  pub selector : Text
  pub stream_public_name : Text
  pub stream_default_name : Text
  pub uri : Text
  pub media_kind : Text
  pub shape_kind : Text
  pub channel : Text
  pub group_key : Text
  pub delivered_caps_json : J.Json
  pub capture_policy_json : J.Json
  pub members_json : J.Json
  pub publications_json : J.Json

pub record SessionRecord (J : JsonApi) : Type 0 where
  pub session_id : ℕ
  pub session_kind : Text
  pub rtsp_enabled : Bool
  pub request_json : J.Json
  pub resolved_members_json : J.Json
  pub state : Text
  pub last_error : Text
  pub started_at_ms : ℕ
  pub stopped_at_ms : ℕ
  pub created_at_ms : ℕ
  pub updated_at_ms : ℕ
  pub source : SessionResolvedSource J
  pub rtsp_url : Text
  pub serving_runtime : Option ServingRuntimeView

-- The table `sessions`.
pub record SessionRow : Type 0 where
  pub session_id : ℕ
  pub stream_id : ℕ
  pub session_kind : Text
  pub rtsp_enabled : Bool
  pub request_json : Text
  pub resolved_members_json : Option Text
  pub state : Text
  pub last_error : Option Text
  pub started_at_ms : Option ℕ
  pub stopped_at_ms : Option ℕ
  pub created_at_ms : ℕ
  pub updated_at_ms : ℕ

-- The columns of `app_sources` that name sessions.
pub record AppSourceRow : Type 0 where
  pub source_session_id : Option ℕ
  pub active_session_id : Option ℕ

-- The table `session_logs`, without the keys of its rows.
pub record LogRow : Type 0 where
  pub session_id : ℕ
  pub event_type : Text
  pub message : Text
  pub payload_json : Option Text
  pub created_at_ms : ℕ

pub record Database : Type 0 where
  pub catalog : Tables
  pub sessions : List SessionRow
  pub app_sources : List AppSourceRow
  pub logs : List LogRow

-- The device of a stream.
unfoldable pub device_of : ℕ → List DeviceRow → Option DeviceRow
device_of device_id [] = none
device_of device_id (r ∷ rows) =
    let rest = device_of device_id rows in if r.device_id == device_id then some r else rest

abbrev number_or_zero : Option ℕ → ℕ
number_or_zero none = 0
number_or_zero (some n) = n

unfoldable pub find_session : ℕ → List SessionRow → Option SessionRow
find_session session_id [] = none
find_session session_id (r ∷ rows) =
    let rest = find_session session_id rows in if r.session_id == session_id then some r else rest

-- `WHERE d.public_name = ? AND (s.public_name = ? OR s.selector = ?) AND s.is_present = 1 AND
-- d.status != 'offline'`
abbrev asked_for : ParsedInsightUri → DeviceRow → StreamRow → Bool
asked_for parsed d s =
    text_eq d.public_name parsed.device
    && (text_eq s.public_name parsed.selector || text_eq s.selector parsed.selector)
    && s.is_present
    && not (text_eq d.status (codes "offline"))

-- The streams joined with their devices.
unfoldable pub find_asked :
    ParsedInsightUri → List DeviceRow → List StreamRow → Option (DeviceRow × StreamRow)
find_asked parsed devices [] = none
find_asked parsed devices (s ∷ streams) =
    let rest = find_asked parsed devices streams in
    elim (device_of s.device_id devices) [
      | none ↦ rest
      | some d ↦ if asked_for parsed d s then some (d, s) else rest
    ]

unfoldable pub find_joined : ℕ → Tables → List StreamRow → Option (DeviceRow × StreamRow)
find_joined stream_id t [] = none
find_joined stream_id t (s ∷ streams) =
    let rest = find_joined stream_id t streams in
    elim (device_of s.device_id t.devices) [
      | none ↦ rest
      | some d ↦ if s.stream_id == stream_id then some (d, s) else rest
    ]

module _ (J : JsonApi) where
  unfoldable pub parse_json : Text → J.Json
  parse_json t = elim (if is_empty t then none else J.parse t) [
    | none ↦ J.object []
    | some value ↦ value
  ]

  -- The columns of a stream and its device; a column without a value is read as an empty text.
  unfoldable pub read_source : Text → DeviceRow → StreamRow → SessionResolvedSource J
  read_source uri_host d s = record {
    stream_id = s.stream_id;
    device_key = d.device_key;
    public_name = d.public_name;
    selector = s.selector;
    stream_public_name = s.public_name;
    stream_default_name = s.selector;
    uri = derive_uri uri_host d.public_name s.public_name;
    media_kind = s.media_kind;
    shape_kind = s.shape_kind;
    channel = text_of s.channel;
    group_key = text_of s.group_key;
    delivered_caps_json = parse_json s.caps_json;
    capture_policy_json = parse_json (text_of s.capture_policy_json);
    members_json = parse_json (text_of s.members_json);
    publications_json = parse_json s.publications_json;
  }

  -- What `LEFT JOIN` and `COALESCE` give for a session whose stream is not there.
  abbrev missing_source : SessionResolvedSource J
  missing_source = record {
    stream_id = 0;
    device_key = [];
    public_name = [];
    selector = [];
    stream_public_name = [];
    stream_default_name = [];
    uri = [];
    media_kind = [];
    shape_kind = [];
    channel = [];
    group_key = [];
    delivered_caps_json = parse_json (codes "{}");
    capture_policy_json = parse_json (codes "{}");
    members_json = parse_json (codes "{}");
    publications_json = parse_json (codes "{}");
  }

  -- `COALESCE(column, '{}')`
  abbrev or_braces : Option Text → Text
  or_braces none = codes "{}"
  or_braces (some t) = t

  -- The columns of the stream as the queries for sessions give them.
  abbrev joined_source : Text → Option (DeviceRow × StreamRow) → SessionResolvedSource J
  joined_source uri_host none = missing_source
  joined_source uri_host (some (d, s)) = record (read_source uri_host d s) {
    capture_policy_json = parse_json (or_braces s.capture_policy_json);
    members_json = parse_json (or_braces s.members_json);
  }

  unfoldable pub hydrate_session : Text → Text → Tables → SessionRow → SessionRecord J
  hydrate_session uri_host rtsp_host t r =
      let source = joined_source uri_host (find_joined r.stream_id t t.streams) in
      record {
        session_id = r.session_id;
        session_kind = r.session_kind;
        rtsp_enabled = r.rtsp_enabled;
        request_json = parse_json r.request_json;
        resolved_members_json = parse_json (text_of r.resolved_members_json);
        state = r.state;
        last_error = text_of r.last_error;
        started_at_ms = number_or_zero r.started_at_ms;
        stopped_at_ms = number_or_zero r.stopped_at_ms;
        created_at_ms = r.created_at_ms;
        updated_at_ms = r.updated_at_ms;
        source = source;
        rtsp_url =
            if r.rtsp_enabled
            then derive_rtsp_url rtsp_host source.public_name source.stream_public_name
            else [];
        serving_runtime = none;
      }
