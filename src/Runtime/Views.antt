-- ===== src/Runtime/Views.antt =====
-- What `ServingRuntimeRegistry` shows of its state: `view_for_session`, `snapshot` and their helpers.
--
-- The JSON of a channel's capabilities is the capabilities themselves; `resolved_members_json` is left
-- out. `publisher_error` is what a publisher that does not run gives as its last error.
pub mod Shown
use insight_io.Base.{
  ℕ, Bool, true, false, not, ◌&&◌, Option, none, some, List, [], ◌∷◌, map, ltb, if◌then◌else◌,
  length, Text, is_empty,
}
use insight_io.Base.Map.{lookup}
use insight_io.Types.{ResolvedCaps}
use insight_io.Runtime.State.{ChannelState, State, active, starting, error, Source, Entry, Registry}
use insight_io.Runtime.Publication.{effective_rtsp, is_running}

pub record IpcChannelRuntimeView : Type 0 where
  pub channel_id : Text
  pub stream_name : Text
  pub route_name : Text
  pub selector : Text
  pub media_kind : Text
  pub delivered_caps : ResolvedCaps
  pub attached_consumer_count : ℕ
  pub frames_published : ℕ

pub record RtspPublicationRuntimeView : Type 0 where
  pub publication_id : Text
  pub stream_name : Text
  pub selector : Text
  pub url : Text
  pub state : State
  pub publication_profile : Text
  pub transport : Text
  pub promised_format : Text
  pub actual_format : Text
  pub last_error : Text
  pub frames_forwarded : ℕ

pub record ServingRuntimeView : Type 0 where
  pub runtime_key : Text
  pub owner_session_id : ℕ
  pub state : State
  pub last_error : Text
  pub rtsp_enabled : Bool
  pub shared : Bool
  pub consumer_count : ℕ
  pub ipc_socket_path : Text
  pub ipc_channels : List IpcChannelRuntimeView
  pub rtsp_publication : Option RtspPublicationRuntimeView
  pub consumer_session_ids : List ℕ

pub record ServingRuntimeSnapshot : Type 0 where
  pub runtime_key : Text
  pub stream_id : ℕ
  pub owner_session_id : ℕ
  pub state : State
  pub last_error : Text
  pub rtsp_enabled : Bool
  pub consumer_count : ℕ
  pub ipc_socket_path : Text
  pub ipc_channels : List IpcChannelRuntimeView
  pub rtsp_publication : Option RtspPublicationRuntimeView
  pub consumer_session_ids : List ℕ
  pub source : Source

unfoldable pub channel_view : ChannelState → IpcChannelRuntimeView
channel_view c = record {
  channel_id = c.channel_id;
  stream_name = c.stream_name;
  route_name = c.route_name;
  selector = c.selector;
  media_kind = c.media_kind;
  delivered_caps = c.delivered_caps;
  attached_consumer_count = c.attached_consumers;
  frames_published = c.frames_published;
}

abbrev pub channel_views : Entry → List IpcChannelRuntimeView
channel_views entry = map channel_view entry.channels

-- The keys of `consumer_rtsp`, in their order.
unfoldable pub session_ids : List (ℕ × Bool) → List ℕ
session_ids [] = []
session_ids ((session_id, wanted) ∷ consumers) = session_id ∷ session_ids consumers

abbrev said : Text → Option Bool → Text
said publisher_error none = []
said publisher_error (some running) = publisher_error

-- The state of a publication that is desired, and its error.
unfoldable pub publication_state : Text → Entry → State × Text
publication_state publisher_error entry =
    let publication = entry.rtsp_publication in
    let reason = said publisher_error publication.publisher in
    if not publication.supported
    then (error, publication.last_error)
    else if is_running publication.publisher
    then (active, publication.last_error)
    else (
      if is_empty reason && is_empty publication.last_error then starting else error,
      if is_empty reason then publication.last_error else reason,
    )

-- `rtsp_view_for_locked`
unfoldable pub rtsp_view : Text → Entry → Option RtspPublicationRuntimeView
unfolding publication_state
rtsp_view publisher_error entry =
    let publication = entry.rtsp_publication in
    let (state, last_error) = publication_state publisher_error entry in
    if not publication.desired
    then none
    else some (record {
      publication_id = publication.publication_id;
      stream_name = publication.stream_name;
      selector = publication.selector;
      url = publication.url;
      state = state;
      publication_profile = publication.publication_profile;
      transport = publication.transport;
      promised_format = publication.promised_format;
      actual_format = publication.actual_format;
      last_error = last_error;
      frames_forwarded = publication.frames_forwarded;
    })

-- `runtime_view_for_locked`
unfoldable pub runtime_view : Text → Text → Entry → ServingRuntimeView
unfolding channel_view session_ids rtsp_view
runtime_view socket_path publisher_error entry = record {
  runtime_key = entry.runtime_key;
  owner_session_id = entry.owner_session_id;
  state = entry.state;
  last_error = entry.last_error;
  rtsp_enabled = effective_rtsp entry;
  shared = ltb 1 (length entry.consumer_rtsp);
  consumer_count = length entry.consumer_rtsp;
  ipc_socket_path = socket_path;
  ipc_channels = channel_views entry;
  rtsp_publication = rtsp_view publisher_error entry;
  consumer_session_ids = session_ids entry.consumer_rtsp;
}

unfoldable pub view_for_session : Text → Text → ℕ → Registry → Option ServingRuntimeView
unfolding runtime_view
view_for_session socket_path publisher_error session_id registry =
    elim (lookup session_id registry.session_to_stream) [
      | none ↦ none
      | some stream_id ↦ elim (lookup stream_id registry.entries) [
        | none ↦ none
        | some entry ↦ some (runtime_view socket_path publisher_error entry)
      ]
    ]

-- One round of the loop in `snapshot`.
unfoldable pub entry_snapshot : Text → Text → ℕ → Entry → ServingRuntimeSnapshot
unfolding channel_view session_ids rtsp_view
entry_snapshot socket_path publisher_error stream_id entry = record {
  runtime_key = entry.runtime_key;
  stream_id = stream_id;
  owner_session_id = entry.owner_session_id;
  state = entry.state;
  last_error = entry.last_error;
  rtsp_enabled = effective_rtsp entry;
  consumer_count = length entry.consumer_rtsp;
  ipc_socket_path = socket_path;
  ipc_channels = channel_views entry;
  rtsp_publication = rtsp_view publisher_error entry;
  consumer_session_ids = session_ids entry.consumer_rtsp;
  source = entry.source;
}

unfoldable pub snapshot : Text → Text → List (ℕ × Entry) → List ServingRuntimeSnapshot
unfolding entry_snapshot
snapshot socket_path publisher_error [] = []
snapshot socket_path publisher_error ((stream_id, entry) ∷ entries) =
    entry_snapshot socket_path publisher_error stream_id entry
    ∷ snapshot socket_path publisher_error entries
