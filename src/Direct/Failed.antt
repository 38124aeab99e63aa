-- ===== src/Direct/Failed.antt =====
-- What `create_direct_session` of backend/src/session_service.cpp leaves when it fails.
use insight_io.Base.{
  ℕ, ◌≡◌, refl, sym, ap, ◌∙◌, Bool, true, false, not, List, [], ◌∷◌, ◌++◌, ◌==◌, ==_iff, Bool-cases,
  inl, inr, if◌then◌else◌, Text, Error, if_by_cases, result_by_cases, arith,
}
use insight_io.Json.{JsonApi}
use insight_io.Uri.{UriResult, accepted, rejected, parse_insight_uri, validate_local_uri_host}
use insight_io.Direct.Rows.{Database, SessionRow, SessionRecord, SessionResolvedSource}
use insight_io.Direct.Service.{
  Surroundings, ServiceState, Outcome, done, failed, threw, session_ids_of, remove_session,
  performs, delete_row, insert_session, lookup_stream, delete_session_row, is_referenced,
}
use insight_io.Direct.Lifecycle.{
  direct_row, settle_created, attach_session_runtime, attach_active, not_found, attach_created,
  insert_direct, create_direct_session, create_parsed, insert_found,
}

abbrev pub listed : ℕ → List ℕ → Bool
listed k [] = false
listed k (j ∷ l) = if j == k then true else listed k l

remove_session-fresh :
    (k : ℕ) (rows : List SessionRow) (r : SessionRow)
    → listed k (session_ids_of rows) ≡ false
    → r.session_id ≡ k
    → remove_session k (rows ++ r ∷ []) ≡ rows
unfolding remove_session
remove_session-fresh k [] r h same = rw ((==_iff r.session_id k).1 same) refl
remove_session-fresh k (q ∷ rows) r h same = elim (Bool-cases (q.session_id == k)) [
  | inl hit ↦ absurd cc
  | inr miss ↦ rw miss (
      ap (λ rest. q ∷ rest)
        (remove_session-fresh k rows r
          (sym (ap (λ b. if b then true else listed k (session_ids_of rows)) miss) ∙ h) same))
]

attach_session_runtime-database :
    (J : JsonApi) (at : Surroundings) (k : ℕ) (s : ServiceState)
    → (attach_session_runtime J at k s).1.database ≡ s.database
unfolding attach_session_runtime attach_active not_found
attach_session_runtime-database J at k s = ground arith

delete_session_row-sessions :
    (at : Surroundings) (k : ℕ) (d : Database)
    → performs at.db delete_row d ≡ true
    → is_referenced k d.app_sources ≡ false
    → (delete_session_row at.db k d).1.sessions ≡ remove_session k d.sessions
unfolding delete_session_row
delete_session_row-sessions at k d deletes free = rw (deletes, free) refl

module _ (J : JsonApi) (at : Surroundings) where
  settle_created-failed :
      (k : ℕ) (input : Text) (rtsp_enabled : Bool) (o : Outcome (SessionRecord J))
      (after : ServiceState) (status : ℕ) (e : Error)
      → performs at.db delete_row after.database ≡ true
      → is_referenced k after.database.app_sources ≡ false
      → (settle_created J at k input rtsp_enabled o after).0 ≡ failed status e
      → (settle_created J at k input rtsp_enabled o after).1.database.sessions
        ≡ remove_session k after.database.sessions
  unfolding settle_created
  settle_created-failed k input rtsp_enabled threw after status e deletes free h = absurd cc
  settle_created-failed k input rtsp_enabled (done c) after status e deletes free h = absurd cc
  settle_created-failed k input rtsp_enabled (failed n x) after status e deletes free h =
      delete_session_row-sessions at k after.database deletes free

  attach_created-failed :
      (k : ℕ) (input : Text) (rtsp_enabled : Bool) (s : ServiceState) (status : ℕ) (e : Error)
      → ((d : Database) → performs at.db delete_row d ≡ true)
      → is_referenced k s.database.app_sources ≡ false
      → (attach_created J at k input rtsp_enabled s).0 ≡ failed status e
      → (attach_created J at k input rtsp_enabled s).1.database.sessions
        ≡ remove_session k s.database.sessions
  unfolding attach_created
  attach_created-failed k input rtsp_enabled s status e deletes free h =
      let kept = attach_session_runtime-database J at k s in
      let (o, after) = attach_session_runtime J at k s in
      settle_created-failed k input rtsp_enabled o after status e (deletes after.database)
        (ap (λ (d : Database). is_referenced k d.app_sources) kept ∙ free) h
      ∙ ap (λ (d : Database). remove_session k d.sessions) kept

  -- What an operation keeps that may end in an error.
  Kept : ServiceState → Outcome (SessionRecord J) × ServiceState → Type 0
  Kept s r =
      (status : ℕ) (e : Error) → r.0 ≡ failed status e → r.1.database.sessions ≡ s.database.sessions

  -- The conditions: the database runs the deletion, and the key of the next row is not in use.
  pub record Sound (s : ServiceState) : Type 0 where
    pub deletes : (d : Database) → performs at.db delete_row d ≡ true
    pub fresh :
        listed
          (at.db.next_id (session_ids_of s.database.sessions))
          (session_ids_of s.database.sessions)
        ≡ false
    pub free :
        is_referenced (at.db.next_id (session_ids_of s.database.sessions)) s.database.app_sources
        ≡ false

  insert_direct-Kept :
      (input : Text) (rtsp_enabled : Bool) (source : SessionResolvedSource J) (s : ServiceState)
      → Sound s
      → Kept s (insert_direct J at input rtsp_enabled source s)
  unfolding insert_direct Kept
  insert_direct-Kept input rtsp_enabled source s sound =
      let k = at.db.next_id (session_ids_of s.database.sessions) in
      let row = direct_row J at k input rtsp_enabled source in
      if_by_cases (Kept s) (not (at.db.prepares insert_session)) _ _ (λ _ _ _ _. refl)
        (λ _.
          if_by_cases (Kept s) (not (at.db.runs insert_session s.database)) _ _ (λ _ _ _ _. refl)
            (λ _ status e h.
              attach_created-failed k input rtsp_enabled _ status e sound.deletes sound.free h
              ∙ remove_session-fresh k s.database.sessions row sound.fresh refl))

  insert_found-Kept :
      (input : Text) (rtsp_enabled : Bool) (o : Outcome (SessionResolvedSource J))
      (s : ServiceState)
      → Sound s
      → Kept s (insert_found J at input rtsp_enabled o s)
  unfolding insert_found Kept
  insert_found-Kept input rtsp_enabled threw s sound = λ _ _ _. refl
  insert_found-Kept input rtsp_enabled (failed n x) s sound = λ _ _ _. refl
  insert_found-Kept input rtsp_enabled (done source) s sound =
      insert_direct-Kept input rtsp_enabled source s sound

  create_parsed-Kept :
      (input : Text) (rtsp_enabled : Bool) (parsed : UriResult) (s : ServiceState)
      → Sound s
      → Kept s (create_parsed J at input rtsp_enabled parsed s)
  unfolding create_parsed Kept
  create_parsed-Kept input rtsp_enabled (rejected message) s sound = λ _ _ _. refl
  create_parsed-Kept input rtsp_enabled (accepted parsed) s sound =
      result_by_cases (Kept s) (validate_local_uri_host parsed.host at.uri_host) _ _
        (λ _ _ _ _. refl)
        (λ _ _. insert_found-Kept input rtsp_enabled (lookup_stream J at parsed s) s sound)

  -- A direct session that is not created leaves the table of sessions as it was, wherever
  -- `create_direct_session` fails with an error: on the input, on the stream, on the row, or on the
  -- runtime. It holds where the database runs every deletion, the key of the next row is no session's,
  -- and no app source names that key.
  pub create_direct_session-failed :
      (input : Text) (rtsp_enabled : Bool) (s : ServiceState) (status : ℕ) (e : Error)
      → Sound s
      → (create_direct_session J at input rtsp_enabled s).0 ≡ failed status e
      → (create_direct_session J at input rtsp_enabled s).1.database.sessions ≡ s.database.sessions
  unfolding create_direct_session Kept
  create_direct_session-failed input rtsp_enabled s status e sound =
      create_parsed-Kept input rtsp_enabled (parse_insight_uri input) s sound status e
