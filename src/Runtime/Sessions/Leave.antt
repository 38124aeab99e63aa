-- ===== src/Runtime/Sessions/Leave.antt =====
-- `detach` of `ServingRuntimeRegistry` keeps the registry's invariant, and the session has gone
-- afterwards.
use mathlib.Core.Path.{subst}
use insight_io.Base.{
  ℕ, ◌≡◌, refl, sym, ap, ◌∙◌, inl, inr, Bool, true, false, none, some, List, [], ◌∷◌, arith, ◌==◌,
  if◌then◌else◌, ==_false, ==_false_sym, Text, Bool-cases, Option-cases,
}
use insight_io.Base.Map.{
  lookup, insert, erase, first_key, has, has-first_key, has-erase, has-erase_split, lookup_unique,
  insert-hit_at, insert-miss, insert-split, erase-hit, erase-miss, erase-split,
}
use insight_io.Runtime.State.{Entry, Registry, Answers}
use insight_io.Runtime.Publication.{reconcile}
use insight_io.Runtime.Publication.Reconcile.{reconcile-Reconciled}
use insight_io.Runtime.Connections.Calm.{Calm, cleanup_fds-Calm}
use insight_io.Runtime.Connections.{doomed, cleanup_connections_for_session}
use insight_io.Runtime.Sessions.{or_zero, next_owner, leave_entry, detach}
use insight_io.Runtime.Sessions.Consistent.{Live, Consistent, Consistent-Calm, reconcile-Live}

empty-has : (s : ℕ) (m : List (ℕ × Bool)) → m ≡ [] → has s m ≡ true → ⊥
unfolding lookup
empty-has s m e h = let bare : has {V = Bool} s [] ≡ true = sym (ap (has s) e) ∙ h in cc

chosen-has :
    (b : Bool) (owner k : ℕ) (m : List (ℕ × Bool))
    → first_key m ≡ some k
    → (b ≡ false → has owner m ≡ true)
    → has (if b then or_zero (first_key m) else owner) m ≡ true
chosen-has true owner k m first stays = ap (λ f. has (or_zero f) m) first ∙ has-first_key m k first
chosen-has false owner k m first stays = stays refl

module _ (host : Text) (answers : Answers) (session_id : ℕ) where
  abbrev pub gone : Registry → Registry
  gone r = record r { session_to_stream = erase session_id r.session_to_stream }

  -- The last consumer leaves.
  drop-Consistent :
      {calm : Bool} (r : Registry) (st : ℕ) (entry : Entry)
      → Consistent calm r
      → lookup session_id r.session_to_stream ≡ some st
      → lookup st r.entries ≡ some entry
      → erase session_id entry.consumer_rtsp ≡ []
      → Consistent calm (record (gone r) { entries = erase st r.entries })
  drop-Consistent r st entry v used there alone = record {
    routed = λ s k h.
        let (other, was) = erase-split session_id s k r.session_to_stream h in
        let (e, he, in_e) = v.routed s k was in
        elim (Bool-cases (st == k)) [
          | inl same ↦
              let is_entry = lookup_unique st k entry e r.entries same there he in
              let stays = has-erase session_id s e.consumer_rtsp other in_e in
              absurd (
                empty-has s _
                  (ap (erase session_id) (ap (λ (x : Entry). x.consumer_rtsp) is_entry) ∙ alone)
                  stays)
          | inr apart ↦ (e, erase-miss st k r.entries apart ∙ he, in_e)
        ];
    consumers = λ s k e h in_e.
        let (apart, he) = erase-split st k e r.entries h in
        let was = v.consumers s k e he in_e in
        elim (Bool-cases (session_id == s)) [
          | inl same ↦
              let met = lookup_unique session_id s st k r.session_to_stream same used was in
              absurd (==_false st k apart (sym met))
          | inr other ↦ erase-miss session_id s r.session_to_stream other ∙ was
        ];
    live = λ k e h. v.live k e (erase-split st k e r.entries h).1;
  }

  owner-stays :
      (entry : Entry) (k : ℕ)
      → has entry.owner_session_id entry.consumer_rtsp ≡ true
      → first_key (erase session_id entry.consumer_rtsp) ≡ some k
      → has
          (next_owner session_id
            (record entry { consumer_rtsp = erase session_id entry.consumer_rtsp }))
          (erase session_id entry.consumer_rtsp)
        ≡ true
  owner-stays entry k owned first =
      chosen-has (entry.owner_session_id == session_id) entry.owner_session_id k
        (erase session_id entry.consumer_rtsp) first
        (λ other.
          has-erase session_id entry.owner_session_id entry.consumer_rtsp (==_false_sym _ _ other)
            owned)

  -- Another consumer stays.
  stay-Consistent :
      {calm : Bool} (r : Registry) (st : ℕ) (entry new : Entry)
      → Consistent calm r
      → lookup session_id r.session_to_stream ≡ some st
      → lookup st r.entries ≡ some entry
      → new.consumer_rtsp ≡ erase session_id entry.consumer_rtsp
      → Live calm new
      → Consistent calm (record (gone r) { entries = insert st new r.entries })
  stay-Consistent r st entry new v used there same_consumers alive = record {
    routed = λ s k h.
        let (other, was) = erase-split session_id s k r.session_to_stream h in
        let (e, he, in_e) = v.routed s k was in
        elim (Bool-cases (st == k)) [
          | inl same ↦
              let is_entry = lookup_unique st k entry e r.entries same there he in
              let stays = has-erase session_id s e.consumer_rtsp other in_e in
              (
                new,
                insert-hit_at st k new r.entries same,
                ap (has s) (
                      same_consumers
                      ∙ ap (λ (x : Entry). erase session_id x.consumer_rtsp) (sym is_entry))
                    ∙ stays,
              )
          | inr apart ↦ (e, insert-miss st k new r.entries apart ∙ he, in_e)
        ];
    consumers = λ s k e h in_e. elim (insert-split st k new e r.entries h) [
      | inl (key, is_new) ↦
          let stays =
            ap (has s) (sym same_consumers ∙ ap (λ (x : Entry). x.consumer_rtsp) is_new) ∙ in_e in
          let (other, was) = has-erase_split session_id s entry.consumer_rtsp stays in
          erase-miss session_id s r.session_to_stream other
          ∙ v.consumers s st entry there was
          ∙ ap (λ x. some x) key
      | inr (apart, he) ↦
          let was = v.consumers s k e he in_e in
          elim (Bool-cases (session_id == s)) [
            | inl same ↦
                let met = lookup_unique session_id s st k r.session_to_stream same used was in
                absurd (==_false st k apart (sym met))
            | inr other ↦ erase-miss session_id s r.session_to_stream other ∙ was
          ]
    ];
    live = λ k e h. elim (insert-split st k new e r.entries h) [
      | inl (key, is_new) ↦ rw (sym is_new) alive
      | inr (apart, he) ↦ v.live k e he
    ];
  }

  List-if :
      {calm : Bool} (m : List (ℕ × Bool)) (x y : Registry)
      → (m ≡ [] → Consistent calm x)
      → ((k : ℕ) → first_key m ≡ some k → Consistent calm y)
      → Consistent calm (elim m as (λ _. Registry) [ [] ↦ x | _ ∷ _ ↦ y ])
  unfolding first_key
  List-if [] x y p q = p refl
  List-if ((k, b) ∷ m) x y p q = q k refl

  leave_entry-Consistent :
      {calm : Bool} (r : Registry) (st : ℕ) (entry : Entry)
      → Consistent calm r
      → lookup session_id r.session_to_stream ≡ some st
      → lookup st r.entries ≡ some entry
      → Consistent calm (leave_entry host answers session_id st entry (gone r))
  unfolding leave_entry
  leave_entry-Consistent r st entry v used there =
      List-if (erase session_id entry.consumer_rtsp) _ _ (drop-Consistent r st entry v used there)
        (λ k first.
          let staying = record entry { consumer_rtsp = erase session_id entry.consumer_rtsp } in
          let left = record staying { owner_session_id = next_owner session_id staying } in
          let alive = v.live st entry there in
          let done = reconcile-Reconciled host answers left in
          stay-Consistent r st entry (reconcile host answers left) v used there done.keeps.consumers
            (reconcile-Live host answers left alive.keyed
              (λ c. owner-stays entry k (alive.owned c) first)))

  detach-Consistent_used :
      {calm : Bool} (r : Registry) (st : ℕ)
      → Consistent calm r
      → lookup session_id r.session_to_stream ≡ some st
      → Consistent calm (detach host answers session_id r)
  unfolding detach
  detach-Consistent_used {calm = served} r st v used =
      let (entry, there, in_entry) = v.routed session_id st used in
      let cleaned = cleanup_connections_for_session session_id (gone r) in
      let calm = cleanup_fds-Calm (doomed session_id r.connections) (gone r) in
      let (d, found, steady) = calm.forth st entry there in
      let back = record cleaned { session_to_stream = r.session_to_stream } in
      let calm_back : Calm r back = record {
        sessions = refl;
        forth = calm.forth;
        back = calm.back;
      } in
      rw (used, detach)
        (rw there (
          rw found (
            subst
              (λ m. Consistent served (
                leave_entry host answers session_id st d
                  (record cleaned { session_to_stream = m })))
              (sym calm.sessions)
              (leave_entry-Consistent back st d (Consistent-Calm r back calm_back v) used found))))

  -- If the registry is consistent, it is consistent after `detach`.
  pub detach-Consistent :
      {calm : Bool} (r : Registry)
      → Consistent calm r
      → Consistent calm (detach host answers session_id r)
  unfolding detach
  detach-Consistent r v = elim (Option-cases (lookup session_id r.session_to_stream)) [
    | inl unused ↦ rw (unused, detach) v
    | inr (st, used) ↦ detach-Consistent_used r st v used
  ]

  leave_entry-sessions :
      (r : Registry) (st : ℕ) (entry : Entry)
      → (leave_entry host answers session_id st entry r).session_to_stream ≡ r.session_to_stream
  unfolding leave_entry
  leave_entry-sessions r st entry = ground arith

  -- After `detach` the session has no stream, in any registry.
  pub detach-sessions :
      (r : Registry) → lookup session_id (detach host answers session_id r).session_to_stream ≡ none
  unfolding detach
  detach-sessions r =
      let cleaned = cleanup_connections_for_session session_id (gone r) in
      let same = (cleanup_fds-Calm (doomed session_id r.connections) (gone r)).sessions in
      let lost = ap (lookup session_id) same ∙ erase-hit session_id r.session_to_stream in
      ground (arith, erase-hit session_id r.session_to_stream, lost, leave_entry-sessions cleaned)
