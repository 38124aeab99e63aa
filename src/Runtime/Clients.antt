-- ===== src/Runtime/Clients.antt =====
-- The clients of `ServingRuntimeRegistry`: how a reader gets its channel (`attach_ipc_consumer_locked`)
-- and is registered, and how all runtimes stop.
pub mod Joined
use insight_io.Base.{
  ℕ, ◌+◌, Bool, true, false, not, ◌&&◌, ◌||◌, Option, none, some, List, [], ◌∷◌, map, ◌==◌,
  if◌then◌else◌, String, Text, codes, text_eq, is_empty, Error, Result, ok, err,
}
use insight_io.Base.Map.{lookup, insert}
use insight_io.Ipc.Ring.{add_reader_eventfd}
use insight_io.Ipc.Channel.{opened, closed}
use insight_io.Runtime.State.{
  ChannelState, State, active, ready, error, Entry, ActiveConnection, Registry, Answers,
}
use insight_io.Runtime.Publication.{
  any_published, is_idle, reset_channels, wait_frames, taken_in, forward_all, no_frames_error,
}
use insight_io.Runtime.Realize.{set_alias}
use insight_io.Runtime.Connections.{cleanup_fds}
use insight_io.Runtime.Frames.{if_numbered}

-- What the operating system grants a client: the new `eventfd`, its duplicate, and whether `epoll`
-- is there and takes the client's descriptor.
pub record Grants : Type 0 where
  pub eventfd : Option ℕ
  pub dup : Option ℕ
  pub epoll_open : Bool
  pub epoll_add : Bool

abbrev failure : String → String → Error
failure code message = record { code = codes code; message = codes message }

abbrev start_failed : Text → Error
start_failed message = record { code = codes "runtime_start_failed"; message = message }

abbrev failed_entry : Entry → Text → Entry
failed_entry entry reason = record entry { state = error; last_error = reason }

-- The part of `attach_ipc_consumer_locked` that starts an idle worker.
unfoldable pub start_for_reader : Answers → Entry → Entry × Option Error
start_for_reader answers entry =
    let fresh = reset_channels entry in
    if is_idle entry.worker
    then elim answers.worker_start [
      | some reason ↦ (failed_entry fresh reason, some (start_failed reason))
      | none ↦
          let waited = record fresh {
            worker = some answers.worker_survives;
            state = active;
            last_error = [];
            channels = wait_frames answers.frames fresh.channels;
            rtsp_publication =
                forward_all (taken_in answers.frames fresh.channels) fresh.rtsp_publication;
          } in
          if not answers.worker_survives && not (any_published waited.channels)
          then (failed_entry waited no_frames_error, some (start_failed no_frames_error))
          else (waited, none)
    ]
    else (entry, none)

unfoldable pub find_alias : Text → List (Text × ℕ) → Option ℕ
find_alias name [] = none
find_alias name ((key, number) ∷ aliases) =
    let rest = find_alias name aliases in if text_eq key name then some number else rest

unfoldable pub find_channel : ℕ → List ChannelState → Option ChannelState
find_channel number [] = none
find_channel number (c ∷ cs) =
    let rest = find_channel number cs in if c.number == number then some c else rest

abbrev pub only_channel : List ChannelState → Result ChannelState
only_channel (c ∷ []) = ok c
only_channel cs =
    err
      (failure "missing_stream_name" "stream_name is required for grouped or multi-stream sessions")

abbrev not_available : Error
not_available = failure "not_found" "requested stream_name is not available on this session"

-- The channel that a client asks for; a name's number is that of a channel of the entry.
unfoldable pub choose_channel : Text → Entry → Result ChannelState
unfolding find_alias find_channel
choose_channel stream_name entry =
    if is_empty stream_name
    then only_channel entry.channels
    else elim (find_alias stream_name entry.channel_aliases) [
      | none ↦ err not_available
      | some number ↦ elim (find_channel number entry.channels) [
        | none ↦ err not_available
        | some c ↦ ok c
      ]
    ]

-- The part that leases an `eventfd` to the client and registers its duplicate with the writer.
unfoldable pub lease_channel :
    Grants → ℕ → ℕ → Entry → ChannelState → Registry → Registry × Result ActiveConnection
lease_channel grants session_id stream_id entry c registry =
    let stored = record registry { entries = insert stream_id entry registry.entries } in
    elim grants.eventfd [
      | none ↦ (stored, err (failure "ipc_error" "failed to allocate reader eventfd"))
      | some eventfd ↦
          let leased = record stored { trace = opened eventfd ∷ stored.trace } in
          let (writer, copy) = add_reader_eventfd c.writer (some eventfd) grants.dup in
          elim copy [
            | none ↦ (
              record leased { trace = closed eventfd ∷ leased.trace },
              err (failure "ipc_error" "failed to register reader eventfd"),
            )
            | some writer_eventfd ↦
                let counted = record c {
                  writer = writer;
                  attached_consumers = c.attached_consumers + 1;
                } in
                let joined = record entry {
                  channels = map (if_numbered c.number (λ _. counted)) entry.channels;
                  channel_aliases = set_alias c.channel_id c.number entry.channel_aliases;
                } in
                (
                  record leased { entries = insert stream_id joined registry.entries },
                  ok (record {
                    session_id = session_id;
                    channel = c.number;
                    leased_eventfd = some eventfd;
                    writer_eventfd = writer_eventfd;
                    client_fd = none;
                  }),
                )
          ]
    ]

abbrev pub is_serving : State → Bool
is_serving active = true
is_serving ready = true
is_serving state = false

-- The part for the entry of the session's stream.
unfoldable pub join_channel :
    Answers → Grants → ℕ → Text → ℕ → Entry → Registry → Registry × Result ActiveConnection
unfolding start_for_reader choose_channel lease_channel
join_channel answers grants session_id stream_name stream_id entry registry =
    let (started, failed) = start_for_reader answers entry in
    let stored = record registry { entries = insert stream_id started registry.entries } in
    if not (is_serving entry.state)
    then (registry, err (failure "runtime_not_ready" "serving runtime is not active"))
    else elim failed [
      | some e ↦ (stored, err e)
      | none ↦ elim (choose_channel stream_name started) [
        | err e ↦ (stored, err e)
        | ok c ↦ lease_channel grants session_id stream_id started c registry
      ]
    ]

-- `attach_ipc_consumer_locked`
unfoldable pub attach_ipc_consumer :
    Answers → Grants → ℕ → Text → Registry → Registry × Result ActiveConnection
unfolding join_channel
attach_ipc_consumer answers grants session_id stream_name registry =
    elim (lookup session_id registry.session_to_stream) [
      | none ↦ (registry, err (failure "not_found" "active runtime not found for session"))
      | some stream_id ↦ elim (lookup stream_id registry.entries) [
        | none ↦ (registry, err (failure "not_found" "serving runtime not found"))
        | some entry ↦ join_channel answers grants session_id stream_name stream_id entry registry
      ]
    ]

-- `register_connection_locked`
unfoldable pub register_connection : Grants → ActiveConnection → Registry → Registry × Bool
register_connection grants connection registry =
    if not grants.epoll_open then (registry, false) else elim connection.client_fd [
      | none ↦ (registry, false)
      | some fd ↦
          if grants.epoll_add
          then (record registry { connections = insert fd connection registry.connections }, true)
          else (registry, false)
    ]

abbrev fds_of : List (ℕ × ActiveConnection) → List ℕ
fds_of [] = []
fds_of ((fd, connection) ∷ connections) = fd ∷ fds_of connections

-- `cleanup_all_connections_locked`
abbrev pub cleanup_all_connections : Registry → Registry
cleanup_all_connections registry = cleanup_fds (fds_of registry.connections) registry

-- `clear`: every entry is stopped and erased.
unfoldable pub clear : Registry → Registry
clear registry = record (cleanup_all_connections registry) { entries = []; session_to_stream = [] }
