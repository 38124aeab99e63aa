-- ===== src/Runtime/Connections.antt =====
-- The IPC connections of `ServingRuntimeRegistry`: how a reader is attached, registered and cleaned
-- up.
pub mod Calm
use insight_io.Base.{
  ℕ, ◌+◌, ◌-◌, Bool, true, false, not, ◌&&◌, ◌||◌, Option, none, some, List, [], ◌∷◌, ◌++◌, map,
  ltb, ◌==◌, if◌then◌else◌, Text, codes, text_eq, is_empty, length, Error, Result, ok, err,
}
use insight_io.Base.Map.{lookup, insert, erase, map_values}
use insight_io.Ipc.Ring.{add_reader_eventfd, remove_reader_eventfd}
use insight_io.Ipc.Channel.{FdEvent, opened, closed}
use insight_io.Runtime.State.{
  ChannelState, State, active, ready, error, Entry, ActiveConnection, Registry, Answers,
}
use insight_io.Runtime.Frames.{if_numbered}
use insight_io.Runtime.Publication.{
  effective_rtsp, has_ipc_consumers, any_published, is_running, is_idle, reset_channels,
  pause_idle_worker, wait_frames, no_frames_error,
}

-- A change of the channel with this number, wherever it is.
unfoldable pub with_channel : ℕ → (ChannelState → ChannelState) → Registry → Registry
unfolding map_values
with_channel number f registry = record registry {
  entries =
      map_values (λ entry. record entry { channels = map (if_numbered number f) entry.channels })
        registry.entries;
}

-- What the end of a connection does to its channel. The counter is above 0: `attach_ipc_consumer`
-- counted the connection.
abbrev pub leave : ℕ → ChannelState → ChannelState
leave writer_eventfd c = record c {
  writer = (remove_reader_eventfd c.writer writer_eventfd).0;
  attached_consumers = c.attached_consumers - 1;
}

-- The entry of this stream pauses if nothing needs its worker.
unfoldable pub pause_stream : ℕ → Registry → Registry
pause_stream stream_id registry = elim (lookup stream_id registry.entries) [
  | none ↦ registry
  | some entry ↦
      if not (effective_rtsp entry) && not (has_ipc_consumers entry)
      then record registry { entries = insert stream_id (pause_idle_worker entry) registry.entries }
      else registry
]

abbrev pub pause_route : Option ℕ → Registry → Registry
pause_route none registry = registry
pause_route (some stream_id) registry = pause_stream stream_id registry

abbrev closing : Option ℕ → List FdEvent → List FdEvent
closing none trace = trace
closing (some fd) trace = closed fd ∷ trace

-- `cleanup_connection_locked`
unfoldable pub cleanup_connection : ActiveConnection → Registry → Registry
unfolding with_channel pause_stream
cleanup_connection connection registry =
    let left = with_channel connection.channel (leave connection.writer_eventfd) registry in
    let paused = pause_route (lookup connection.session_id left.session_to_stream) left in
    record paused {
      trace = closing connection.client_fd (closing connection.leased_eventfd paused.trace);
    }

unfoldable pub cleanup_fd : ℕ → Registry → Registry
unfolding cleanup_connection
cleanup_fd fd registry = elim (lookup fd registry.connections) [
  | none ↦ registry
  | some connection ↦
      let cleaned = cleanup_connection connection registry in
      record cleaned { connections = erase fd cleaned.connections }
]

unfoldable pub cleanup_fds : List ℕ → Registry → Registry
unfolding cleanup_fd
cleanup_fds [] registry = registry
cleanup_fds (fd ∷ fds) registry = cleanup_fds fds (cleanup_fd fd registry)

unfoldable pub doomed : ℕ → List (ℕ × ActiveConnection) → List ℕ
doomed session_id [] = []
doomed session_id ((fd, connection) ∷ connections) =
    let rest = doomed session_id connections in
    if connection.session_id == session_id then fd ∷ rest else rest

-- `cleanup_connections_for_session_locked`
abbrev pub cleanup_connections_for_session : ℕ → Registry → Registry
cleanup_connections_for_session session_id registry =
    cleanup_fds (doomed session_id registry.connections) registry
