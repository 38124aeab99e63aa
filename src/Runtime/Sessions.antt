-- ===== src/Runtime/Sessions.antt =====
-- `attach` and `detach` of `ServingRuntimeRegistry`: the sessions that share a serving runtime.
pub mod Consistent
pub mod Leave
pub mod Join
pub mod Attached
pub mod Served
use insight_io.Base.{
  ℕ, ◌+◌, Bool, true, false, Option, none, some, List, [], ◌∷◌, ◌==◌, if◌then◌else◌, Text, is_empty,
  length, Error, Result, ok, err,
}
use insight_io.Base.Map.{lookup, insert, erase, first_key}
use insight_io.Runtime.State.{
  Source, Entry, Registry, Session, System, Answers, starting, blank_entry,
}
use insight_io.Runtime.Publication.{reconcile}
use insight_io.Runtime.Realize.{runtime_key_for, realize_runtime}
use insight_io.Runtime.Connections.{cleanup_connections_for_session}

abbrev pub or_zero : Option ℕ → ℕ
or_zero none = 0
or_zero (some k) = k

-- The owner after this session has left: itself if it was another one, else the smallest session.
abbrev pub next_owner : ℕ → Entry → ℕ
next_owner session_id entry =
    if entry.owner_session_id == session_id
    then or_zero (first_key entry.consumer_rtsp)
    else entry.owner_session_id

-- The part of `detach_locked` after the session is known to use this stream's entry. With its last
-- consumer an entry is stopped and erased.
unfoldable pub leave_entry : Text → Answers → ℕ → ℕ → Entry → Registry → Registry
leave_entry rtsp_host answers session_id stream_id entry registry =
    let staying = record entry { consumer_rtsp = erase session_id entry.consumer_rtsp } in
    elim staying.consumer_rtsp [
      | [] ↦ record registry { entries = erase stream_id registry.entries }
      | _ ∷ _ ↦ record registry {
        entries =
            insert stream_id
              (reconcile rtsp_host answers
                (record staying { owner_session_id = next_owner session_id staying }))
              registry.entries;
      }
    ]

-- `detach_locked`
unfoldable pub detach : Text → Answers → ℕ → Registry → Registry
unfolding leave_entry
detach rtsp_host answers session_id registry = elim (lookup session_id registry.session_to_stream) [
  | none ↦ registry
  | some stream_id ↦
      let gone = record registry {
        session_to_stream = erase session_id registry.session_to_stream;
      } in
      elim (lookup stream_id gone.entries) [
        | none ↦ gone
        | some _ ↦
            let cleaned = cleanup_connections_for_session session_id gone in
            elim (lookup stream_id cleaned.entries) [
              | none ↦ cleaned
              | some entry ↦ leave_entry rtsp_host answers session_id stream_id entry cleaned
            ]
      ]
]

-- `entries_[stream_id]`
abbrev pub entry_at : Option Entry → Entry
entry_at none = blank_entry
entry_at (some entry) = entry

-- The entry of a stream that has no runtime yet.
abbrev pub new_entry : Session → Entry → Entry
new_entry session entry = record entry {
  runtime_key = runtime_key_for session.source.stream_id;
  source = session.source;
  owner_session_id = session.session_id;
  state = starting;
}

-- The part of `attach` after the runtime is there.
unfoldable pub join_entry : Text → Answers → Session → Entry → Registry → Registry
join_entry rtsp_host answers session entry registry =
    let sourced = if entry.source.stream_id == 0 then session.source else entry.source in
    let owner =
      if entry.owner_session_id == 0 then session.session_id else entry.owner_session_id in
    let joined = record entry {
      source = sourced;
      consumer_rtsp = insert session.session_id session.rtsp_enabled entry.consumer_rtsp;
      owner_session_id = owner;
    } in
    record registry {
      entries =
          insert session.source.stream_id (reconcile rtsp_host answers joined) registry.entries;
      session_to_stream =
          insert session.session_id session.source.stream_id registry.session_to_stream;
    }

-- The part of `attach` after the session has left another stream.
unfoldable pub attach_entry : Text → System → Answers → Session → Registry → Registry × Option Error
unfolding join_entry
attach_entry rtsp_host system answers session registry =
    let stream_id = session.source.stream_id in
    let entry = entry_at (lookup stream_id registry.entries) in
    if is_empty entry.runtime_key
    then elim (realize_runtime system registry.next_channel (new_entry session entry) session) [
      | err e ↦ (record registry { entries = erase stream_id registry.entries }, some e)
      | ok realized ↦ (
        join_entry rtsp_host answers session realized
            (record registry { next_channel = registry.next_channel + length realized.channels }),
        none,
      )
    ]
    else (join_entry rtsp_host answers session entry registry, none)

-- The exit of `attach` by an exception of `build_runtime_plan`: the entry that was begun stays.
abbrev pub begin_entry : Session → Registry → Registry
begin_entry session registry = record registry {
  entries =
      insert session.source.stream_id
        (new_entry session (entry_at (lookup session.source.stream_id registry.entries)))
        registry.entries;
}

-- The session leaves the stream it uses, if that is another one.
abbrev pub leave_other : Text → Answers → Session → Registry → Registry
leave_other rtsp_host answers session registry =
    elim (lookup session.session_id registry.session_to_stream) [
      | none ↦ registry
      | some stream_id ↦
          if stream_id == session.source.stream_id
          then registry
          else detach rtsp_host answers session.session_id registry
    ]

-- `attach`
unfoldable pub attach : Text → System → Answers → Session → Registry → Registry × Option Error
unfolding detach attach_entry
attach rtsp_host system answers session registry =
    attach_entry rtsp_host system answers session (leave_other rtsp_host answers session registry)
