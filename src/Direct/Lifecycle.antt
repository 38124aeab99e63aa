-- ===== src/Direct/Lifecycle.antt =====
-- The operations of `SessionService` of backend/src/session_service.cpp that change a session:
-- `attach_session_runtime`, `create_direct_session`, `start_session`, `stop_session` and
-- `delete_session`.
use insight_io.Base.{
  ℕ, Bool, false, not, Option, none, some, List, [], ◌∷◌, ◌++◌, ◌==◌, if◌then◌else◌, Text, codes,
  text_eq, is_empty, Result, ok, err,
}
use insight_io.Base.Map.{lookup}
use insight_io.Json.{JsonApi}
use insight_io.Types.Decimal.{to_string}
use insight_io.Uri.{UriResult, accepted, rejected, parse_insight_uri, validate_local_uri_host}
use insight_io.Catalog.Tables.{json_or_null}
use insight_io.Runtime.Plan.{PlanSource, SessionPlan, build_runtime_plan, runtime_plan}
use insight_io.Runtime.State.{Registry, Session, RuntimePlan}
use insight_io.Runtime.Sessions.{attach, detach, leave_other, begin_entry, entry_at}
use insight_io.Runtime.Views.{ServingRuntimeView, view_for_session}
use insight_io.Direct.Rows.{SessionResolvedSource, SessionRecord, SessionRow}
use insight_io.Direct.Service.{
  insert_session, Surroundings, ServiceState, Outcome, done, failed, threw, fail, session_ids_of,
  delete_session_row, upsert_log, get_session, lookup_stream,
}

module _ (J : JsonApi) (at : Surroundings) where
  abbrev plan_source : SessionRecord J → PlanSource J
  plan_source session = record {
    stream_id = session.source.stream_id;
    selector = session.source.selector;
    media_kind = session.source.media_kind;
    channel = session.source.channel;
    capture_policy_json = session.source.capture_policy_json;
    members_json = session.source.members_json;
    resolved_members_json = session.resolved_members_json;
  }

  abbrev planned : Result SessionPlan → Result RuntimePlan
  planned (err e) = err e
  planned (ok plan) = ok (runtime_plan at.build plan)

  -- The session as the registry takes it, with the result of `build_runtime_plan`.
  abbrev registry_session : SessionRecord J → Result RuntimePlan → Session
  registry_session session plan = record {
    session_id = session.session_id;
    rtsp_enabled = session.rtsp_enabled;
    source = record {
      stream_id = session.source.stream_id;
      public_name = session.source.public_name;
      stream_public_name = session.source.stream_public_name;
    };
    plan = plan;
  }

  -- `attach` for a session whose plan throws, which it is only asked for when the stream has no
  -- runtime: the entry that was begun stays.
  unfoldable pub attach_throwing :
      SessionRecord J → Registry → Outcome (Option ServingRuntimeView) × Registry
  attach_throwing session registry =
      let asking = registry_session session (err (record { code = []; message = [] })) in
      let left = leave_other at.rtsp_host at.answers asking registry in
      let stream_id = asking.source.stream_id in
      let entry = entry_at (lookup stream_id left.entries) in
      if is_empty entry.runtime_key
      then (threw, begin_entry asking left)
      else (let joined = (attach at.rtsp_host at.system at.answers asking registry).0 in
          (
            done (view_for_session at.socket_path at.publisher_error session.session_id joined),
            joined,
          ))

  -- `attach` of the registry for a session of the service, and the view that it returns.
  unfoldable pub attach_planned :
      SessionRecord J → Registry → Outcome (Option ServingRuntimeView) × Registry
  attach_planned session registry = elim (build_runtime_plan J at.build (plan_source session)) [
    | none ↦ attach_throwing session registry
    | some plan ↦
        let (joined, error) =
          attach at.rtsp_host at.system at.answers (registry_session session (planned plan))
            registry in
        elim error [
          | some e ↦ (failed 500 e, joined)
          | none ↦ (
            done (view_for_session at.socket_path at.publisher_error session.session_id joined),
            joined,
          )
        ]
  ]

  unfoldable pub not_found : ℕ → ServiceState → Outcome (SessionRecord J) × ServiceState
  not_found session_id s =
      fail 404 (codes "not_found")
        (codes "Session '" ++ to_string session_id ++ codes "' not found") s

  -- The part of `attach_session_runtime` for a session that is active.
  unfoldable pub attach_active :
      SessionRecord J → ServiceState → Outcome (SessionRecord J) × ServiceState
  attach_active session s =
      let (attached, registry) = attach_planned session s.registry in
      let after = record s { registry = registry } in
      elim attached [
        | threw ↦ (threw, after)
        | failed status e ↦ (failed status e, after)
        | done view ↦ (done (record session { serving_runtime = view }), after)
      ]

  unfoldable pub attach_session_runtime :
      ℕ → ServiceState → Outcome (SessionRecord J) × ServiceState
  attach_session_runtime session_id s = elim (get_session J at session_id s) [
    | none ↦ not_found session_id s
    | some session ↦
        if session.source.stream_id == 0
        then fail 500 (codes "internal") (codes "Session is missing resolved source metadata") s
        else if text_eq session.state (codes "active")
        then attach_active session s
        else (
          done (record session { serving_runtime = none }),
          record s { registry = detach at.rtsp_host at.answers session_id s.registry },
        )
  ]

  -- `created.serving_runtime.has_value() && created.serving_runtime->shared`
  abbrev pub is_shared : Option ServingRuntimeView → Bool
  is_shared none = false
  is_shared (some view) = view.shared

  abbrev pub logged : ℕ → Text → Text → J.Json → ServiceState → ServiceState
  logged session_id event_type message payload s = record s {
    database = upsert_log J at session_id event_type message payload s.database;
  }

  abbrev request : Text → Bool → List (Text × J.Json)
  request input rtsp_enabled =
      (codes "input", J.text input) ∷ (codes "rtsp_enabled", J.boolean rtsp_enabled) ∷ []

  -- The row that `create_direct_session` inserts.
  abbrev pub direct_row : ℕ → Text → Bool → SessionResolvedSource J → SessionRow
  direct_row session_id input rtsp_enabled source = record {
    session_id = session_id;
    stream_id = source.stream_id;
    session_kind = codes "direct";
    rtsp_enabled = rtsp_enabled;
    request_json = J.dump (J.object (request input rtsp_enabled));
    resolved_members_json =
        json_or_null J (if J.is_array source.members_json then source.members_json else J.array []);
    state = codes "active";
    last_error = none;
    started_at_ms = some at.timestamp;
    stopped_at_ms = none;
    created_at_ms = at.timestamp;
    updated_at_ms = at.timestamp;
  }

  -- What `create_direct_session` does once it has tried to attach the session.
  unfoldable pub settle_created :
      ℕ
      → Text
      → Bool
      → Outcome (SessionRecord J)
      → ServiceState
      → Outcome (SessionRecord J) × ServiceState
  settle_created session_id input rtsp_enabled threw after = (threw, after)
  settle_created session_id input rtsp_enabled (failed status e) after = (
    failed status e,
    record after { database = (delete_session_row at.db session_id after.database).1 },
  )
  settle_created session_id input rtsp_enabled (done created) after = (
    done created,
    logged session_id (codes "session_created") (codes "Created direct session")
        (J.object (
          request input rtsp_enabled
          ++ (codes "runtime_reused", J.boolean (is_shared created.serving_runtime)) ∷ []))
        after,
  )

  -- The part of `create_direct_session` after the row is inserted.
  unfoldable pub attach_created :
      ℕ → Text → Bool → ServiceState → Outcome (SessionRecord J) × ServiceState
  attach_created session_id input rtsp_enabled s =
      let (attached, after) = attach_session_runtime session_id s in
      settle_created session_id input rtsp_enabled attached after

  -- The part after the stream is found.
  unfoldable pub insert_direct :
      Text
      → Bool
      → SessionResolvedSource J
      → ServiceState
      → Outcome (SessionRecord J) × ServiceState
  insert_direct input rtsp_enabled source s =
      let session_id = at.db.next_id (session_ids_of s.database.sessions) in
      if not (at.db.prepares insert_session)
      then fail 500 (codes "internal") (codes "Failed to prepare direct session insert") s
      else if not (at.db.runs insert_session s.database)
      then fail 500 (codes "internal") (codes "Failed to create direct session") s
      else attach_created session_id input rtsp_enabled (record s {
        database = record s.database {
          sessions = s.database.sessions ++ direct_row session_id input rtsp_enabled source ∷ [];
        };
      })

  -- The part after the lookup of the stream.
  unfoldable pub insert_found :
      Text
      → Bool
      → Outcome (SessionResolvedSource J)
      → ServiceState
      → Outcome (SessionRecord J) × ServiceState
  insert_found input rtsp_enabled threw s = (threw, s)
  insert_found input rtsp_enabled (failed status e) s = (failed status e, s)
  insert_found input rtsp_enabled (done source) s = insert_direct input rtsp_enabled source s

  -- The part after the input is parsed.
  unfoldable pub create_parsed :
      Text → Bool → UriResult → ServiceState → Outcome (SessionRecord J) × ServiceState
  create_parsed input rtsp_enabled (rejected message) s = fail 422 (codes "invalid_input") message s
  create_parsed input rtsp_enabled (accepted parsed) s =
      elim (validate_local_uri_host parsed.host at.uri_host) [
        | err e ↦ (failed 422 e, s)
        | ok _ ↦ insert_found input rtsp_enabled (lookup_stream J at parsed s) s
      ]

  unfoldable pub create_direct_session :
      Text → Bool → ServiceState → Outcome (SessionRecord J) × ServiceState
  create_direct_session input rtsp_enabled s =
      create_parsed input rtsp_enabled (parse_insight_uri input) s
