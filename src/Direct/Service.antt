-- ===== src/Direct/Service.antt =====
-- `create_direct_session`, `start_session`, `stop_session`, `delete_session` and what they are made of,
-- of `SessionService` in backend/src/session_service.cpp.
--
-- The request's and the logs' texts are written by the JSON library; every operation reads the clock
-- once, so that its rows have one time.
use insight_io.Base.{
  ℕ, Bool, true, false, not, ◌&&◌, ◌||◌, Option, none, some, List, [], ◌∷◌, ◌++◌, ◌==◌,
  if◌then◌else◌, Text, codes, text_eq, Error,
}
use insight_io.Json.{JsonApi}
use insight_io.Uri.{ParsedInsightUri}
use insight_io.Catalog.Tables.{text_or_null, json_or_null}
use insight_io.Runtime.Plan.{Build}
use insight_io.Runtime.State.{Registry, System, Answers}
use insight_io.Runtime.Views.{view_for_session}
use insight_io.Direct.Rows.{
  SessionResolvedSource, SessionRecord, SessionRow, AppSourceRow, LogRow, Database, find_session,
  find_asked, read_source, hydrate_session,
}

-- The statements that the service gives to the database.
pub data Command : Type 0 where
  select_session select_stream insert_session activate_session stop_row mark_stopped : Command
  select_references delete_row insert_log update_rtsp : Command

-- The database engine: whether it prepares a statement, whether it runs it, and the key of a new row.
pub record SessionDb : Type 0 where
  pub prepares : Command → Bool
  pub runs : Command → Database → Bool
  pub next_id : List ℕ → ℕ

abbrev pub performs : SessionDb → Command → Database → Bool
performs db command d = db.prepares command && db.runs command d

-- What the service is made with, and what stands outside of it while an operation runs.
pub record Surroundings : Type 0 where
  pub uri_host : Text
  pub rtsp_host : Text
  pub socket_path : Text
  pub db : SessionDb
  pub build : Build
  pub system : System
  pub answers : Answers
  pub publisher_error : Text
  pub timestamp : ℕ

pub record ServiceState : Type 0 where
  pub database : Database
  pub registry : Registry

-- The end of an operation: its result, its status and error, or an exception.
pub data Outcome (A : Type 0) : Type 0 where
  done : A → Outcome A
  failed : ℕ → Error → Outcome A
  threw : Outcome A

abbrev pub fail {ℓ} : {S : Type ℓ} {A : Type 0} → ℕ → Text → Text → S → Outcome A × S
fail status code message s = (failed status (record { code = code; message = message }), s)

abbrev pub session_ids_of : List SessionRow → List ℕ
session_ids_of [] = []
session_ids_of (r ∷ rows) = r.session_id ∷ session_ids_of rows

-- `UPDATE sessions SET ... WHERE session_id = ?`
unfoldable pub update_session : ℕ → (SessionRow → SessionRow) → List SessionRow → List SessionRow
update_session session_id change [] = []
update_session session_id change (r ∷ rows) =
    (if r.session_id == session_id then change r else r) ∷ update_session session_id change rows

-- `DELETE FROM sessions WHERE session_id = ?`
unfoldable pub remove_session : ℕ → List SessionRow → List SessionRow
remove_session session_id [] = []
remove_session session_id (r ∷ rows) =
    let rest = remove_session session_id rows in
    if r.session_id == session_id then rest else r ∷ rest

-- `ON DELETE CASCADE` of the logs.
unfoldable pub remove_logs : ℕ → List LogRow → List LogRow
remove_logs session_id [] = []
remove_logs session_id (r ∷ rows) =
    let rest = remove_logs session_id rows in if r.session_id == session_id then rest else r ∷ rest

abbrev pub names_session : ℕ → Option ℕ → Bool
names_session session_id none = false
names_session session_id (some k) = k == session_id

-- `WHERE source_session_id = ? OR active_session_id = ?`
unfoldable pub is_referenced : ℕ → List AppSourceRow → Bool
is_referenced session_id [] = false
is_referenced session_id (r ∷ rows) =
    names_session session_id r.source_session_id
    || names_session session_id r.active_session_id
    || is_referenced session_id rows

-- `delete_session_row`, whose result no caller looks at; the schema refuses it for a session that an
-- app source names.
unfoldable pub delete_session_row : SessionDb → ℕ → Database → Bool × Database
delete_session_row db session_id d =
    if not (performs db delete_row d) || is_referenced session_id d.app_sources
    then (false, d)
    else (
      true,
      record d {
        sessions = remove_session session_id d.sessions;
        logs = remove_logs session_id d.logs;
      },
    )

-- What `mark_session_stopped_with_error` writes.
abbrev pub stopped_with : Text → ℕ → SessionRow → SessionRow
stopped_with last_error timestamp r = record r {
  state = codes "stopped";
  last_error = text_or_null last_error;
  stopped_at_ms = some timestamp;
  updated_at_ms = timestamp;
}

unfoldable pub mark_session_stopped_with_error : SessionDb → ℕ → Text → ℕ → Database → Database
mark_session_stopped_with_error db session_id last_error timestamp d =
    if performs db mark_stopped d
    then record d {
      sessions = update_session session_id (stopped_with last_error timestamp) d.sessions;
    }
    else d

module _ (J : JsonApi) (at : Surroundings) where
  unfoldable pub upsert_log : ℕ → Text → Text → J.Json → Database → Database
  upsert_log session_id event_type message payload d =
      if performs at.db insert_log d
      then record d {
        logs =
            d.logs
            ++ record {
              session_id = session_id;
              event_type = event_type;
              message = message;
              payload_json = json_or_null J payload;
              created_at_ms = at.timestamp;
            }
              ∷ [];
      }
      else d

  unfoldable pub enrich_runtime : Registry → SessionRecord J → SessionRecord J
  enrich_runtime registry session = record session {
    serving_runtime =
        if text_eq session.state (codes "active")
        then view_for_session at.socket_path at.publisher_error session.session_id registry
        else none;
  }

  unfoldable pub get_session : ℕ → ServiceState → Option (SessionRecord J)
  get_session session_id s =
      if not (performs at.db select_session s.database)
      then none
      else elim (find_session session_id s.database.sessions) [
        | none ↦ none
        | some r ↦ some (
            enrich_runtime s.registry
              (hydrate_session J at.uri_host at.rtsp_host s.database.catalog r))
      ]

  unfoldable pub lookup_stream : ParsedInsightUri → ServiceState → Outcome (SessionResolvedSource J)
  lookup_stream parsed s =
      if not (at.db.prepares select_stream)
      then failed 500
          (record { code = codes "internal"; message = codes "Failed to prepare stream lookup" })
      else elim (if at.db.runs select_stream s.database
          then find_asked parsed s.database.catalog.devices s.database.catalog.streams
          else none) [
            | none ↦ failed 404 (record {
              code = codes "unknown_input";
              message = codes "Input URI does not match a catalog-published source";
            })
            | some (d, r) ↦ done (read_source J at.uri_host d r)
          ]
