-- ===== src/Direct/Changes.antt =====
-- `start_session`, `stop_session`, `delete_session` and `ensure_session_rtsp` of `SessionService` of
-- backend/src/session_service.cpp.
use insight_io.Base.{
  ℕ, Bool, true, false, not, ◌&&◌, none, some, [], ◌∷◌, ◌++◌, if◌then◌else◌, codes,
}
use insight_io.Json.{JsonApi}
use insight_io.Types.Decimal.{to_string}
use insight_io.Runtime.Sessions.{detach}
use insight_io.Direct.Rows.{SessionRecord, SessionRow, Database}
use insight_io.Direct.Service.{
  activate_session, stop_row, select_references, delete_row, update_rtsp, SessionDb, performs,
  Surroundings, ServiceState, Outcome, done, failed, threw, fail, update_session,
  delete_session_row, is_referenced, mark_session_stopped_with_error, get_session,
}
use insight_io.Direct.Lifecycle.{attach_session_runtime, is_shared, not_found, logged}

-- `update_session_rtsp`
unfoldable pub update_session_rtsp : SessionDb → ℕ → Bool → ℕ → Database → Bool × Database
update_session_rtsp db session_id rtsp_enabled timestamp d =
    let change : SessionRow → SessionRow =
      λ r. record r { rtsp_enabled = rtsp_enabled; updated_at_ms = timestamp } in
    if performs db update_rtsp d
    then (true, record d { sessions = update_session session_id change d.sessions })
    else (false, d)

module _ (J : JsonApi) (at : Surroundings) where
  -- What `start_session` and `stop_session` write.
  abbrev pub activated : SessionRow → SessionRow
  activated r = record r {
    state = codes "active";
    started_at_ms = some at.timestamp;
    stopped_at_ms = none;
    updated_at_ms = at.timestamp;
    last_error = none;
  }

  abbrev pub stopped : SessionRow → SessionRow
  stopped r = record r {
    state = codes "stopped";
    stopped_at_ms = some at.timestamp;
    updated_at_ms = at.timestamp;
  }

  abbrev pub changed : ℕ → (SessionRow → SessionRow) → ServiceState → ServiceState
  changed session_id change s = record s {
    database = record s.database {
      sessions = update_session session_id change s.database.sessions;
    };
  }

  -- The part of `start_session` after the row is active.
  unfoldable pub attach_started : ℕ → ServiceState → Outcome (SessionRecord J) × ServiceState
  attach_started session_id s =
      let (attached, after) = attach_session_runtime J at session_id s in
      elim attached [
        | threw ↦ (threw, after)
        | failed status e ↦ (
          failed status e,
          record after {
            database =
                mark_session_stopped_with_error at.db session_id e.message at.timestamp
                  after.database;
          },
        )
        | done updated ↦ (
          done updated,
          logged J at session_id (codes "session_started") (codes "Started direct session")
              (J.object
                ((codes "runtime_reused", J.boolean (is_shared J at updated.serving_runtime)) ∷ []))
              after,
        )
      ]

  unfoldable pub start_session : ℕ → ServiceState → Outcome (SessionRecord J) × ServiceState
  start_session session_id s = elim (get_session J at session_id s) [
    | none ↦ not_found J at session_id s
    | some _ ↦
        if not (at.db.prepares activate_session)
        then fail 500 (codes "internal") (codes "Failed to prepare session start") s
        else if not (at.db.runs activate_session s.database)
        then fail 500 (codes "internal") (codes "Failed to start session") s
        else attach_started session_id (changed session_id activated s)
  ]

  -- The part of `stop_session` after the row is stopped. Reading the session back is taken for an
  -- exception when it fails: the code does not test it.
  unfoldable pub detach_stopped : ℕ → ServiceState → Outcome (SessionRecord J) × ServiceState
  detach_stopped session_id s =
      let left = record s { registry = detach at.rtsp_host at.answers session_id s.registry } in
      let after =
        logged J at session_id (codes "session_stopped") (codes "Stopped direct session") J.null
          left in
      elim (get_session J at session_id after) [
        | none ↦ (threw, after)
        | some updated ↦ (done updated, after)
      ]

  unfoldable pub stop_session : ℕ → ServiceState → Outcome (SessionRecord J) × ServiceState
  stop_session session_id s = elim (get_session J at session_id s) [
    | none ↦ not_found J at session_id s
    | some _ ↦
        if not (at.db.prepares stop_row)
        then fail 500 (codes "internal") (codes "Failed to prepare session stop") s
        else if not (at.db.runs stop_row s.database)
        then fail 500 (codes "internal") (codes "Failed to stop session") s
        else detach_stopped session_id (changed session_id stopped s)
  ]

  -- The part of `delete_session` after no app source was found.
  unfoldable pub delete_unreferenced : ℕ → ServiceState → Outcome (Unit {0}) × ServiceState
  delete_unreferenced session_id s =
      let (deleted, database) = delete_session_row at.db session_id s.database in
      if not (at.db.prepares delete_row)
      then fail 500 (codes "internal") (codes "Failed to prepare session delete") s
      else if not deleted
      then fail 500 (codes "internal") (codes "Failed to delete session") s
      else (
        done tt,
        record {
          database = database;
          registry = detach at.rtsp_host at.answers session_id s.registry;
        },
      )

  unfoldable pub delete_session : ℕ → ServiceState → Outcome (Unit {0}) × ServiceState
  delete_session session_id s = elim (get_session J at session_id s) [
    | none ↦
        fail 404 (codes "not_found")
          (codes "Session '" ++ to_string session_id ++ codes "' not found") s
    | some _ ↦
        if not (at.db.prepares select_references)
        then fail 500 (codes "internal") (codes "Failed to prepare session reference check") s
        else if at.db.runs select_references s.database
            && is_referenced session_id s.database.app_sources
        then fail 409 (codes "conflict")
            (codes "Session '" ++ to_string session_id ++ codes "' is still referenced") s
        else delete_unreferenced session_id s
  ]

  -- The part of `ensure_session_rtsp` after the row wants RTSP.
  unfoldable pub attach_publishing : ℕ → ServiceState → Outcome (SessionRecord J) × ServiceState
  attach_publishing session_id s =
      let (attached, after) = attach_session_runtime J at session_id s in
      elim attached [
        | threw ↦ (threw, after)
        | failed status e ↦ (failed status e, after)
        | done updated ↦ (
          done updated,
          logged J at session_id (codes "session_rtsp_enabled")
              (codes "Enabled RTSP publication intent for active session") J.null after,
        )
      ]

  unfoldable pub ensure_session_rtsp : ℕ → ServiceState → Outcome (SessionRecord J) × ServiceState
  ensure_session_rtsp session_id s = elim (get_session J at session_id s) [
    | none ↦ not_found J at session_id s
    | some session ↦
        let (written, database) =
          update_session_rtsp at.db session_id true at.timestamp s.database in
        if session.rtsp_enabled
        then attach_publishing session_id s
        else if written
        then attach_publishing session_id (record s { database = database })
        else fail 500 (codes "internal") (codes "Failed to update session RTSP state") s
  ]
