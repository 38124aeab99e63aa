-- ===== src/Runtime/Sessions/Served.antt =====
-- `attach` and `detach` of `ServingRuntimeRegistry` in any order: the invariant holds in every state
-- that they reach.
use insight_io.Base.{ℕ, ◌≡◌, Bool, true, false, none, Text}
use insight_io.Base.Map.{lookup}
use insight_io.Runtime.State.{empty_registry, ActiveConnection, Registry, Session, System, Answers}
use insight_io.Runtime.Sessions.Leave.{detach-Consistent}
use insight_io.Runtime.Connections.Calm.{cleanup_fd-Calm}
use insight_io.Runtime.Clients.{Grants, attach_ipc_consumer, register_connection, clear}
use insight_io.Runtime.Clients.Joined.{attach_ipc_consumer-Calm, register_connection-Calm}
use insight_io.Runtime.Connections.{cleanup_fd}
use insight_io.Runtime.Sessions.{begin_entry, detach, leave_other, attach}
use insight_io.Runtime.Sessions.Consistent.{Consistent, Consistent-Calm}
use insight_io.Runtime.Sessions.Attached.{
  leave_other-Ready, attach-Consistent, begin_entry-Consistent,
}

-- The states that the operations on sessions and on clients reach from the empty registry. The flag
-- says that no `attach` has ended in an exception since the registry was last empty or cleared.
pub data Reachable : Bool → Registry → Type 0 where
  start : Reachable true empty_registry
  attached :
      (calm : Bool) (host : Text) (system : System) (answers : Answers) (session : Session)
      (r : Registry)
      → Reachable calm r
      → Reachable calm (attach host system answers session r).0
  threw :
      (calm : Bool) (host : Text) (answers : Answers) (session : Session) (r : Registry)
      → Reachable calm r
      → lookup session.source.stream_id (leave_other host answers session r).entries ≡ none
      → Reachable false (begin_entry session (leave_other host answers session r))
  detached :
      (calm : Bool) (host : Text) (answers : Answers) (session_id : ℕ) (r : Registry)
      → Reachable calm r
      → Reachable calm (detach host answers session_id r)
  joined :
      (calm : Bool) (answers : Answers) (grants : Grants) (session_id : ℕ) (name : Text)
      (r : Registry)
      → Reachable calm r
      → Reachable calm (attach_ipc_consumer answers grants session_id name r).0
  registered :
      (calm : Bool) (grants : Grants) (connection : ActiveConnection) (r : Registry)
      → Reachable calm r
      → Reachable calm (register_connection grants connection r).0
  cleared_all : (calm : Bool) (r : Registry) → Reachable calm r → Reachable true (clear r)
  disconnected :
      (calm : Bool) (fd : ℕ) (r : Registry) → Reachable calm r → Reachable calm (cleanup_fd fd r)

empty-Consistent : Consistent true empty_registry
unfolding lookup
empty-Consistent = record {
  routed = λ s st h. absurd cc;
  consumers = λ s st e h i. absurd cc;
  live = λ st e h. absurd cc;
}

-- Every registry that sessions and clients reach from the empty one, an exception of `attach`
-- included, is consistent: a session has a stream exactly if it is a consumer of that stream's entry,
-- every entry has a key, and its publication desires RTSP exactly if a consumer does. As long as no
-- `attach` has ended in an exception since the last `clear`, the owner of every entry is one of its
-- consumers.
pub Reachable-Consistent : (calm : Bool) (r : Registry) → Reachable calm r → Consistent calm r
unfolding clear
Reachable-Consistent calm r start = empty-Consistent
Reachable-Consistent calm r (attached c host system answers session s reached) =
    attach-Consistent host system answers session s (Reachable-Consistent c s reached)
Reachable-Consistent calm r (threw c host answers session s reached missing) =
    begin_entry-Consistent session (leave_other host answers session s)
      (leave_other-Ready host answers session s (Reachable-Consistent c s reached)).consistent
      missing
Reachable-Consistent calm r (detached c host answers session_id s reached) =
    detach-Consistent host answers session_id s (Reachable-Consistent c s reached)
Reachable-Consistent calm r (joined c answers grants session_id name s reached) =
    Consistent-Calm s _ (attach_ipc_consumer-Calm answers grants session_id name s)
      (Reachable-Consistent c s reached)
Reachable-Consistent calm r (registered c grants connection s reached) =
    Consistent-Calm s _ (register_connection-Calm grants connection s)
      (Reachable-Consistent c s reached)
Reachable-Consistent calm r (cleared_all c s reached) = record {
  routed = empty-Consistent.routed;
  consumers = empty-Consistent.consumers;
  live = empty-Consistent.live;
}
Reachable-Consistent calm r (disconnected c fd s reached) =
    Consistent-Calm s (cleanup_fd fd s) (cleanup_fd-Calm fd s) (Reachable-Consistent c s reached)
