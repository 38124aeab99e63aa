-- ===== src/Runtime/Sessions/Attached.antt =====
-- `attach` of `ServingRuntimeRegistry` keeps the registry's invariant, on each of its exits.
use insight_io.Base.{
  ℕ, ◌+◌, ◌≡◌, refl, sym, ap, ◌∙◌, Bool, false, inl, inr, none, some, ◌==◌, ==_iff, Text, is_empty,
  length, Bool-cases, Option-cases, Result-cases,
}
use insight_io.Base.Map.{lookup, erase, has, insert-miss, insert-split, erase-miss, erase-split}
use insight_io.Runtime.State.{Entry, Registry, Session, System, Answers, blank_entry}
use insight_io.Runtime.Sessions.Join.{Kin, Fits, realize_runtime-Kin, join_entry-Consistent}
use insight_io.Runtime.Sessions.Leave.{detach-Consistent, detach-sessions}
use insight_io.Runtime.Publication.{any_rtsp}
use insight_io.Runtime.Realize.{realize_runtime}
use insight_io.Runtime.Sessions.{begin_entry, new_entry, attach_entry, leave_other, attach}
use insight_io.Runtime.Sessions.Consistent.{Consistent}

-- A session that has no stream, or this one.
abbrev Settled : Session → Registry → Type 0
Settled session r =
    (k : ℕ) → lookup session.session_id r.session_to_stream ≡ some k → session.source.stream_id ≡ k

same-Consistent :
    {calm : Bool} (r : Registry) (n : ℕ)
    → Consistent calm r
    → Consistent calm (record r { next_channel = n })
same-Consistent r n v = record { routed = v.routed; consumers = v.consumers; live = v.live }

-- A stream without an entry has none to lose.
erase-Consistent :
    {calm : Bool} (r : Registry) (st : ℕ)
    → Consistent calm r
    → lookup st r.entries ≡ none
    → Consistent calm (record r { entries = erase st r.entries })
erase-Consistent r st v missing = record {
  routed = λ s k h.
      let (e, he, in_e) = v.routed s k h in
      elim (Bool-cases (st == k)) [
        | inl same ↦ let key = (==_iff st k).0 same in absurd cc
        | inr apart ↦ (e, erase-miss st k r.entries apart ∙ he, in_e)
      ];
  consumers = λ s k e h in_e. v.consumers s k e (erase-split st k e r.entries h).1 in_e;
  live = λ k e h. v.live k e (erase-split st k e r.entries h).1;
}

found-Fits :
    {calm : Bool} (session : Session) (r : Registry) (entry : Entry)
    → Consistent calm r
    → Settled session r
    → lookup session.source.stream_id r.entries ≡ some entry
    → Fits calm session r entry
found-Fits session r entry v unmoved there =
    let alive = v.live session.source.stream_id entry there in
    record {
      keyed = alive.keyed;
      owned = λ c. inl (alive.owned c);
      consumers = λ s h. v.consumers s session.source.stream_id entry there h;
      routed = λ s h.
          let (e, he, in_e) = v.routed s session.source.stream_id h in
          let is_entry : e ≡ entry = cc in
          ap (λ (x : Entry). has s x.consumer_rtsp) (sym is_entry) ∙ in_e;
      unmoved = unmoved;
    }

made-Fits :
    {calm : Bool} (session : Session) (r : Registry) (realized : Entry)
    → Consistent calm r
    → Settled session r
    → lookup session.source.stream_id r.entries ≡ none
    → Kin (new_entry session blank_entry) realized
    → Fits calm session r realized
unfolding lookup
made-Fits session r realized v unmoved missing kin = record {
  keyed = ap is_empty kin.runtime_key;
  owned = λ c. inr kin.owner;
  consumers = λ s h. let none_yet = ap (λ m. has s m) (sym kin.consumers) ∙ h in absurd cc;
  routed = λ s h. let (e, he, in_e) = v.routed s session.source.stream_id h in absurd cc;
  unmoved = unmoved;
}

attach_entry-Consistent :
    {calm : Bool} (host : Text) (system : System) (answers : Answers) (session : Session)
    (r : Registry)
    → Consistent calm r
    → Settled session r
    → Consistent calm (attach_entry host system answers session r).0
unfolding attach_entry
attach_entry-Consistent {calm = calm} host system answers session r v unmoved =
    elim (Option-cases (lookup session.source.stream_id r.entries)) [
      | inl missing ↦
          elim (Result-cases
            (realize_runtime system r.next_channel (new_entry session blank_entry) session)) [
              | inl (e, refused) ↦
                  rw (missing, attach_entry)
                    (rw refused (erase-Consistent r session.source.stream_id v missing))
              | inr (realized, made) ↦
                  let kin = realize_runtime-Kin system r.next_channel _ session realized made in
                  let counted = record r {
                    next_channel = r.next_channel + length realized.channels;
                  } in
                  let fits : Fits calm session counted realized =
                    made-Fits session counted realized (same-Consistent r _ v) unmoved missing
                      kin in
                  rw (missing, attach_entry)
                    (rw made (
                      join_entry-Consistent host answers session counted realized
                        (same-Consistent r _ v) fits))
            ]
      | inr (entry, there) ↦
          let fits = found-Fits session r entry v unmoved there in
          rw (there, attach_entry)
            (rw fits.keyed (join_entry-Consistent host answers session r entry v fits))
    ]

-- A consistent registry in which the session has no other stream.
pub record Ready (calm : Bool) (session : Session) (r : Registry) : Type 0 where
  pub consistent : Consistent calm r
  settled : Settled session r

pub leave_other-Ready :
    {calm : Bool} (host : Text) (answers : Answers) (session : Session) (r : Registry)
    → Consistent calm r
    → Ready calm session (leave_other host answers session r)
leave_other-Ready host answers session r v =
    elim (Option-cases (lookup session.session_id r.session_to_stream)) [
      | inl unused ↦
          rw (unused, leave_other) (record { consistent = v; settled = λ k h. absurd cc })
      | inr (st, used) ↦ elim (Bool-cases (st == session.source.stream_id)) [
        | inl same ↦
            let here = (==_iff st session.source.stream_id).0 same in
            rw (used, leave_other) (rw same (record { consistent = v; settled = λ k h. cc }))
        | inr other ↦
            let nowhere = detach-sessions host answers session.session_id r in
            rw (used, leave_other)
              (rw other (record {
                consistent = detach-Consistent host answers session.session_id r v;
                settled = λ k h. absurd cc;
              }))
      ]
    ]

-- If the registry is consistent, it is consistent after `attach`, whether that succeeds or fails.
pub attach-Consistent :
    {calm : Bool} (host : Text) (system : System) (answers : Answers) (session : Session)
    (r : Registry)
    → Consistent calm r
    → Consistent calm (attach host system answers session r).0
unfolding attach
attach-Consistent host system answers session r v =
    let left = leave_other-Ready host answers session r v in
    attach_entry-Consistent host system answers session (leave_other host answers session r)
      left.consistent left.settled

-- The registry after an exception of `attach`: the session has left its other stream, and the entry of
-- its own is begun.
pub begin_entry-Consistent :
    {calm : Bool} (session : Session) (r : Registry)
    → Consistent calm r
    → lookup session.source.stream_id r.entries ≡ none
    → Consistent false (begin_entry session r)
unfolding lookup any_rtsp
begin_entry-Consistent session r v missing =
    let st = session.source.stream_id in
    rw (missing, begin_entry)
      (record {
        routed = λ s k h.
            let (e, he, in_e) = v.routed s k h in
            elim (Bool-cases (st == k)) [
              | inl same ↦ let key = (==_iff st k).0 same in absurd cc
              | inr apart ↦ (e, insert-miss st k _ r.entries apart ∙ he, in_e)
            ];
        consumers = λ s k e h in_e. elim (insert-split st k _ e r.entries h) [
          | inl (here, is_new) ↦
              let stays = ap (λ (x : Entry). has s x.consumer_rtsp) is_new ∙ in_e in absurd cc
          | inr (apart, he) ↦ v.consumers s k e he in_e
        ];
        live = λ k e h. elim (insert-split st k _ e r.entries h) [
          | inl (here, is_new) ↦
              rw (sym is_new) (record { keyed = refl; owned = λ c. absurd cc; desired = refl })
          | inr (apart, he) ↦
              let alive = v.live k e he in
              record { keyed = alive.keyed; owned = λ c. absurd cc; desired = alive.desired }
        ];
      })
