-- ===== src/Runtime/Sessions/Join.antt =====
-- `attach` of `ServingRuntimeRegistry` keeps the registry's invariant, and serves the session.
use insight_io.Base.{
  ℕ, suc, ◌≡◌, sym, ap, ◌∙◌, ◌⊎◌, inl, inr, Bool, true, false, Option, none, some, List, [], ◌∷◌,
  ◌==◌, if◌then◌else◌, ==_iff, ==_false, Text, is_empty, Bool-cases, Error, Result, ok, err,
  bind-ok,
}
use insight_io.Base.Map.{
  lookup, insert, has, has-insert, has-insert_self, has-insert_split, insert-hit, insert-hit_at,
  insert-miss, insert-split,
}
use insight_io.Runtime.State.{Entry, Registry, Session, System, Answers}
use insight_io.Runtime.Publication.{reconcile}
use insight_io.Runtime.Publication.Reconcile.{reconcile-Reconciled}
use insight_io.Runtime.State.{RuntimeChannelPlan, ready}
use insight_io.Runtime.Realize.{realize_channels, realize_channel, realize_runtime}
use insight_io.Runtime.Sessions.{join_entry}
use insight_io.Runtime.Sessions.Consistent.{Live, Consistent, reconcile-Live}

-- What the realization of a runtime leaves of the entry that it starts from.
pub record Kin (e d : Entry) : Type 0 where
  pub runtime_key : d.runtime_key ≡ e.runtime_key
  pub owner : d.owner_session_id ≡ e.owner_session_id
  pub consumers : d.consumer_rtsp ≡ e.consumer_rtsp

Kin-of : (e d : Entry) → e ≡ d → Kin e d
Kin-of e d h = record {
  runtime_key = ap (λ (x : Entry). x.runtime_key) (sym h);
  owner = ap (λ (x : Entry). x.owner_session_id) (sym h);
  consumers = ap (λ (x : Entry). x.consumer_rtsp) (sym h);
}

ok-inj : (e d : Entry) → ok e ≡ ok d → e ≡ d
ok-inj e d h = cc

worker-inj :
    (w : Option Error) (r d : Entry)
    → elim w as (λ _. Result Entry) [
      | some e ↦ err e
      | none ↦ ok (record r { worker = some false; state = ready; last_error = [] })
    ]
      ≡ ok d
    → record r { worker = some false; state = ready; last_error = [] } ≡ d
worker-inj none r d h = ok-inj _ d h
worker-inj (some e) r d h = absurd cc

realize_channels-Kin :
    (system : System) (n : ℕ) (e : Entry) (plans : List RuntimeChannelPlan) (d : Entry)
    → realize_channels system n e plans ≡ ok d
    → Kin e d
unfolding realize_channels
realize_channels-Kin system n e [] d h = Kin-of e d (ok-inj e d h)
realize_channels-Kin system n e (plan ∷ plans) d h =
    let (c, made, rest) = bind-ok (realize_channel system e.runtime_key n plan) _ d h in
    let k = realize_channels-Kin system (suc n) _ plans d rest in
    record { runtime_key = k.runtime_key; owner = k.owner; consumers = k.consumers }

pub realize_runtime-Kin :
    (system : System) (n : ℕ) (e : Entry) (session : Session) (d : Entry)
    → realize_runtime system n e session ≡ ok d
    → Kin e d
unfolding realize_runtime
realize_runtime-Kin system n e session d h =
    let (plan, planned, rest) = bind-ok session.plan _ d h in
    let (r, realized, last) =
      bind-ok
        (realize_channels system n (record e { channels = []; channel_aliases = [] }) plan.channels)
        _ d rest in
    let k = realize_channels-Kin system n _ plan.channels r realized in
    let j = Kin-of _ _ (worker-inj plan.worker r d last) in
    record {
      runtime_key = j.runtime_key ∙ k.runtime_key;
      owner = j.owner ∙ k.owner;
      consumers = j.consumers ∙ k.consumers;
    }

-- What an entry needs for this session to join it.
pub record Fits (calm : Bool) (session : Session) (r : Registry) (entry : Entry) : Type 0 where
  pub keyed : is_empty entry.runtime_key ≡ false
  pub owned :
      calm ≡ true
      → (has entry.owner_session_id entry.consumer_rtsp ≡ true)
        ⊎ (entry.owner_session_id ≡ session.session_id)
  pub consumers :
      (s : ℕ)
      → has s entry.consumer_rtsp ≡ true
      → lookup s r.session_to_stream ≡ some session.source.stream_id
  pub routed :
      (s : ℕ)
      → lookup s r.session_to_stream ≡ some session.source.stream_id
      → has s entry.consumer_rtsp ≡ true
  pub unmoved :
      (k : ℕ)
      → lookup session.session_id r.session_to_stream ≡ some k
      → session.source.stream_id ≡ k

owner-joins :
    (b : Bool) (session_id owner : ℕ) (wanted : Bool) (m : List (ℕ × Bool))
    → (has owner m ≡ true) ⊎ (owner ≡ session_id)
    → has (if b then session_id else owner) (insert session_id wanted m) ≡ true
owner-joins true session_id owner wanted m h = has-insert_self session_id wanted m
owner-joins false session_id owner wanted m (inl old) = has-insert session_id owner wanted m old
owner-joins false session_id owner wanted m (inr self) =
    ap (λ o. has o (insert session_id wanted m)) self ∙ has-insert_self session_id wanted m

add-Consistent :
    {calm : Bool} (session : Session) (r : Registry) (entry new : Entry)
    → Consistent calm r
    → Fits calm session r entry
    → new.consumer_rtsp ≡ insert session.session_id session.rtsp_enabled entry.consumer_rtsp
    → Live calm new
    → Consistent calm (record r {
      entries = insert session.source.stream_id new r.entries;
      session_to_stream = insert session.session_id session.source.stream_id r.session_to_stream;
    })
add-Consistent session r entry new v fits grown alive =
    let id = session.session_id in
    let st = session.source.stream_id in
    record {
      routed = λ s k h. elim (insert-split id s st k r.session_to_stream h) [
        | inl (self, here) ↦ (
          new,
          ap (λ x. lookup x (insert st new r.entries)) (sym here) ∙ insert-hit st new r.entries,
          ap (λ m. has s m) grown
              ∙ ap (λ x. has x (insert id session.rtsp_enabled entry.consumer_rtsp)) (sym self)
              ∙ has-insert_self id session.rtsp_enabled entry.consumer_rtsp,
        )
        | inr (other, was) ↦ elim (Bool-cases (st == k)) [
          | inl same ↦
              let used = was ∙ ap (λ x. some x) (sym ((==_iff st k).0 same)) in
              (
                new,
                insert-hit_at st k new r.entries same,
                ap (λ m. has s m) grown
                    ∙ has-insert id s session.rtsp_enabled entry.consumer_rtsp (fits.routed s used),
              )
          | inr apart ↦
              let (e, he, in_e) = v.routed s k was in
              (e, insert-miss st k new r.entries apart ∙ he, in_e)
        ]
      ];
      consumers = λ s k e h in_e. elim (insert-split st k new e r.entries h) [
        | inl (here, is_new) ↦
            let stays =
              ap (λ m. has s m) (sym grown ∙ ap (λ (x : Entry). x.consumer_rtsp) is_new) ∙ in_e in
            elim (Bool-cases (id == s)) [
              | inl self ↦ insert-hit_at id s st r.session_to_stream self ∙ ap (λ x. some x) here
              | inr other ↦
                  elim (has-insert_split id s session.rtsp_enabled entry.consumer_rtsp stays) [
                    | inl self ↦ absurd cc
                    | inr old ↦
                        insert-miss id s st r.session_to_stream other
                        ∙ fits.consumers s old
                        ∙ ap (λ x. some x) here
                  ]
            ]
        | inr (apart, he) ↦
            let was = v.consumers s k e he in_e in
            elim (Bool-cases (id == s)) [
              | inl self ↦
                  let moved = ap (λ x. lookup x r.session_to_stream) ((==_iff id s).0 self) ∙ was in
                  absurd (==_false st k apart (fits.unmoved k moved))
              | inr other ↦ insert-miss id s st r.session_to_stream other ∙ was
            ]
      ];
      live = λ k e h. elim (insert-split st k new e r.entries h) [
        | inl (here, is_new) ↦ rw (sym is_new) alive
        | inr (apart, he) ↦ v.live k e he
      ];
    }

pub join_entry-Consistent :
    {calm : Bool} (host : Text) (answers : Answers) (session : Session) (r : Registry)
    (entry : Entry)
    → Consistent calm r
    → Fits calm session r entry
    → Consistent calm (join_entry host answers session entry r)
unfolding join_entry
join_entry-Consistent host answers session r entry v fits =
    let joined = record entry {
      source = if entry.source.stream_id == 0 then session.source else entry.source;
      consumer_rtsp = insert session.session_id session.rtsp_enabled entry.consumer_rtsp;
      owner_session_id =
          if entry.owner_session_id == 0 then session.session_id else entry.owner_session_id;
    } in
    add-Consistent session r entry (reconcile host answers joined) v fits
      (reconcile-Reconciled host answers joined).keeps.consumers
      (reconcile-Live host answers joined fits.keyed (λ c.
        owner-joins (entry.owner_session_id == 0) session.session_id entry.owner_session_id
          session.rtsp_enabled entry.consumer_rtsp (fits.owned c)))
