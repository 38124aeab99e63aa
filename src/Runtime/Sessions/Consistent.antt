-- ===== src/Runtime/Sessions/Consistent.antt =====
-- The invariant of `ServingRuntimeRegistry`'s maps, which `attach` and `detach` keep: the sessions'
-- streams and the streams' consumers agree.
use insight_io.Base.{ℕ, ◌≡◌, sym, ap, ◌∙◌, Bool, true, false, some, Text, is_empty}
use insight_io.Base.Map.{lookup, has}
use insight_io.Runtime.State.{Entry, Registry, Answers}
use insight_io.Runtime.Publication.{any_rtsp, effective_rtsp, reconcile}
use insight_io.Runtime.Publication.Reconcile.{reconcile-Reconciled}
use insight_io.Runtime.Connections.Calm.{Steady, Calm}

-- An entry that is in use: it has a key, its publication desires RTSP exactly if a consumer does, and,
-- where `calm`, its owner is one of its consumers.
pub record Live (calm : Bool) (entry : Entry) : Type 0 where
  pub keyed : is_empty entry.runtime_key ≡ false
  pub owned : calm ≡ true → has entry.owner_session_id entry.consumer_rtsp ≡ true
  pub desired : entry.rtsp_publication.desired ≡ effective_rtsp entry

pub record Consistent (calm : Bool) (r : Registry) : Type 0 where
  pub routed :
      (s st : ℕ)
      → lookup s r.session_to_stream ≡ some st
      → (e : Entry) × (lookup st r.entries ≡ some e) × (has s e.consumer_rtsp ≡ true)
  pub consumers :
      (s st : ℕ) (e : Entry)
      → lookup st r.entries ≡ some e
      → has s e.consumer_rtsp ≡ true
      → lookup s r.session_to_stream ≡ some st
  pub live : (st : ℕ) (e : Entry) → lookup st r.entries ≡ some e → Live calm e

Live-Steady : {calm : Bool} (e d : Entry) → Steady e d → Live calm e → Live calm d
Live-Steady e d s l = record {
  keyed = ap is_empty s.runtime_key ∙ l.keyed;
  owned = λ c. rw (s.owner, s.consumers) (l.owned c);
  desired = s.desired ∙ l.desired ∙ sym (ap any_rtsp s.consumers);
}

-- The invariant holds of a registry exactly as of one that is calm to it.
pub Consistent-Calm :
    {calm : Bool} (r t : Registry) → Calm r t → Consistent calm r → Consistent calm t
Consistent-Calm r t c v = record {
  routed = λ s st h.
      let (e, he, in_e) = v.routed s st (ap (lookup s) (sym c.sessions) ∙ h) in
      let (d, hd, steady) = c.forth st e he in (d, hd, rw (steady.consumers) in_e);
  consumers = λ s st d h in_d.
      let (e, he, steady) = c.back st d h in
      ap (lookup s) (c.sessions) ∙ v.consumers s st e he (rw (sym steady.consumers) in_d);
  live = λ st d h. let (e, he, steady) = c.back st d h in Live-Steady e d steady (v.live st e he);
}

pub reconcile-Live :
    {calm : Bool} (host : Text) (answers : Answers) (e : Entry)
    → is_empty e.runtime_key ≡ false
    → (calm ≡ true → has e.owner_session_id e.consumer_rtsp ≡ true)
    → Live calm (reconcile host answers e)
reconcile-Live host answers e keyed owned =
    let done = reconcile-Reconciled host answers e in
    record {
      keyed = ap is_empty done.keeps.runtime_key ∙ keyed;
      owned = λ c. rw (done.keeps.owner, done.keeps.consumers) (owned c);
      desired = done.keeps.desired ∙ sym (ap any_rtsp done.keeps.consumers);
    }
