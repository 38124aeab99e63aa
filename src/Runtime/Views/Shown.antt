-- ===== src/Runtime/Views/Shown.antt =====
-- What a session sees of its serving runtime.
use insight_io.Base.{
  ℕ, ◌≡◌, refl, ◌∙◌, Bool, true, false, ◌||◌, some, List, [], ◌∷◌, arith, ◌==◌, Text,
}
use insight_io.Base.Map.{lookup, has}
use insight_io.Rtsp.Plan.{is_some}
use insight_io.Runtime.State.{Entry, Registry}
use insight_io.Runtime.Sessions.Consistent.{Consistent}
use insight_io.Runtime.Views.{
  ServingRuntimeView, session_ids, rtsp_view, runtime_view, view_for_session,
}

abbrev pub is_listed : ℕ → List ℕ → Bool
is_listed s [] = false
is_listed s (id ∷ ids) = (id == s) || is_listed s ids

listed-has : (s : ℕ) (m : List (ℕ × Bool)) → is_listed s (session_ids m) ≡ has s m
unfolding session_ids lookup
listed-has s [] = refl
listed-has s ((id, wanted) ∷ m) = ground (arith, listed-has s m)

rtsp_view-some :
    (reason : Text) (e : Entry) → is_some (rtsp_view reason e) ≡ e.rtsp_publication.desired
unfolding rtsp_view
rtsp_view-some reason e = ground arith

-- In a consistent registry, in which every owner is a consumer, a session with a stream has a view. The view lists the session and the
-- owner among the consumers, and shows a publication exactly if it says that RTSP is enabled.
pub view_for_session-shown :
    (path reason : Text) (s st : ℕ) (r : Registry)
    → Consistent true r
    → lookup s r.session_to_stream ≡ some st
    → (v : ServingRuntimeView) × (view_for_session path reason s r ≡ some v)
      × (is_listed s v.consumer_session_ids ≡ true)
      × (is_listed v.owner_session_id v.consumer_session_ids ≡ true)
      × (is_some v.rtsp_publication ≡ v.rtsp_enabled)
unfolding view_for_session runtime_view
view_for_session-shown path reason s st r ok used =
    let (e, there, in_e) = ok.routed s st used in
    let alive = ok.live st e there in
    (
      runtime_view path reason e,
      rw (used, view_for_session) (rw there refl),
      listed-has s e.consumer_rtsp ∙ in_e,
      listed-has e.owner_session_id e.consumer_rtsp ∙ alive.owned refl,
      rtsp_view-some reason e ∙ alive.desired,
    )
