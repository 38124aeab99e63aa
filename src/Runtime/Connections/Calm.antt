-- ===== src/Runtime/Connections/Calm.antt =====
-- What the end of a connection leaves as it is: the sessions, and each entry's key, owner, consumers
-- and wish for RTSP.
use insight_io.Base.{
  ℕ, ◌≡◌, refl, sym, ◌∙◌, inl, inr, Bool, true, false, Option, none, some, List, [], ◌∷◌, ◌==◌,
  if◌then◌else◌, ==_iff, Bool-cases, Option-cases,
}
use insight_io.Base.Map.{
  lookup, insert, insert-hit, insert-miss, insert-split, map_values, lookup-map_values,
}
use insight_io.Ipc.Channel.{FdEvent}
use insight_io.Runtime.State.{ChannelState, Entry, ActiveConnection, Registry}
use insight_io.Runtime.Publication.{pause_idle_worker}
use insight_io.Runtime.Connections.{
  leave, pause_route, cleanup_fd, with_channel, pause_stream, cleanup_connection, cleanup_fds,
}

-- Entries with the same key, owner, consumers and wish for RTSP.
pub record Steady (e d : Entry) : Type 0 where
  pub runtime_key : d.runtime_key ≡ e.runtime_key
  pub owner : d.owner_session_id ≡ e.owner_session_id
  pub consumers : d.consumer_rtsp ≡ e.consumer_rtsp
  pub desired : d.rtsp_publication.desired ≡ e.rtsp_publication.desired

-- Registries with the same sessions, whose entries are steady.
pub record Calm (r t : Registry) : Type 0 where
  pub sessions : t.session_to_stream ≡ r.session_to_stream
  pub forth :
      (st : ℕ) (e : Entry)
      → lookup st r.entries ≡ some e
      → (d : Entry) × (lookup st t.entries ≡ some d) × Steady e d
  pub back :
      (st : ℕ) (d : Entry)
      → lookup st t.entries ≡ some d
      → (e : Entry) × (lookup st r.entries ≡ some e) × Steady e d

pub Steady-self : (e : Entry) → Steady e e
Steady-self e = record { runtime_key = refl; owner = refl; consumers = refl; desired = refl }

pub Steady-trans : (a b c : Entry) → Steady a b → Steady b c → Steady a c
Steady-trans a b c p q = record {
  runtime_key = q.runtime_key ∙ p.runtime_key;
  owner = q.owner ∙ p.owner;
  consumers = q.consumers ∙ p.consumers;
  desired = q.desired ∙ p.desired;
}

pub Calm-self : (r : Registry) → Calm r r
Calm-self r = record {
  sessions = refl;
  forth = λ st e h. (e, h, Steady-self e);
  back = λ st e h. (e, h, Steady-self e);
}

pub Calm-trans : (r s t : Registry) → Calm r s → Calm s t → Calm r t
Calm-trans r s t p q = record {
  sessions = q.sessions ∙ p.sessions;
  forth = λ st e h.
      let (d, hd, sd) = p.forth st e h in
      let (c, hc, sc) = q.forth st d hd in (c, hc, Steady-trans e d c sd sc);
  back = λ st c h.
      let (d, hd, sd) = q.back st c h in
      let (e, he, se) = p.back st d hd in (e, he, Steady-trans e d c se sd);
}

some_mapped :
    (f : Entry → Entry) (o : Option Entry) (d : Entry)
    → elim o as (λ _. Option Entry) [ none ↦ none | some v ↦ some (f v) ] ≡ some d
    → (e : Entry) × (o ≡ some e) × (d ≡ f e)
some_mapped f none d h = absurd cc
some_mapped f (some e) d h = (e, refl, cc)

-- A change of every entry that is steady is calm.
map-Calm :
    (f : Entry → Entry) (r : Registry)
    → ((e : Entry) → Steady e (f e))
    → Calm r (record r { entries = map_values f r.entries })
map-Calm f r steady = record {
  sessions = refl;
  forth = λ st e h. (f e, rw (lookup-map_values f st r.entries, h) refl, steady e);
  back = λ st d h.
      let (e, he, eq) =
        some_mapped f (lookup st r.entries) d (sym (lookup-map_values f st r.entries) ∙ h) in
      (e, he, rw eq (steady e));
}

-- A change of one entry that is steady is calm.
pub insert-Calm :
    (st : ℕ) (e d : Entry) (r : Registry)
    → lookup st r.entries ≡ some e
    → Steady e d
    → Calm r (record r { entries = insert st d r.entries })
insert-Calm st e d r h steady = record {
  sessions = refl;
  forth = λ k a ha. elim (Bool-cases (st == k)) [
    | inl same ↦
        let key = (==_iff st k).0 same in
        let hit = insert-hit st d r.entries in let was : a ≡ e = cc in (d, cc, rw was steady)
    | inr other ↦ (a, insert-miss st k d r.entries other ∙ ha, Steady-self a)
  ];
  back = λ k c hc. elim (insert-split st k d c r.entries hc) [
    | inl (key, new) ↦ (e, cc, rw (sym new) steady)
    | inr (other, old) ↦ (c, old, Steady-self c)
  ];
}

with_channel-Calm :
    (n : ℕ) (f : ChannelState → ChannelState) (r : Registry) → Calm r (with_channel n f r)
unfolding with_channel
with_channel-Calm n f r =
    map-Calm _ r
      (λ e. record { runtime_key = refl; owner = refl; consumers = refl; desired = refl })

pause-Steady : (e : Entry) → Steady e (pause_idle_worker e)
unfolding pause_idle_worker
pause-Steady e = record { runtime_key = refl; owner = refl; consumers = refl; desired = refl }

Calm-if : (b : Bool) (r x y : Registry) → Calm r x → Calm r y → Calm r (if b then x else y)
Calm-if true r x y p q = p
Calm-if false r x y p q = q

pause_stream-Calm : (st : ℕ) (r : Registry) → Calm r (pause_stream st r)
unfolding pause_stream
pause_stream-Calm st r = elim (Option-cases (lookup st r.entries)) [
  | inl missing ↦ rw (missing, pause_stream) (Calm-self r)
  | inr (e, h) ↦
      rw (h, pause_stream) (Calm-if _ r _ _ (insert-Calm st e _ r h (pause-Steady e)) (Calm-self r))
]

-- Connections and descriptors are not in what calm registries share.
pub closing-Calm :
    (r : Registry) (cs : List (ℕ × ActiveConnection)) (es : List FdEvent)
    → Calm r (record r { connections = cs; trace = es })
closing-Calm r cs es = record {
  sessions = refl;
  forth = λ st e h. (e, h, Steady-self e);
  back = λ st e h. (e, h, Steady-self e);
}

pause_route-Calm : (o : Option ℕ) (r : Registry) → Calm r (pause_route o r)
pause_route-Calm none r = Calm-self r
pause_route-Calm (some st) r = pause_stream-Calm st r

cleanup_connection-Calm : (c : ActiveConnection) (r : Registry) → Calm r (cleanup_connection c r)
unfolding cleanup_connection
cleanup_connection-Calm c r =
    let left = with_channel-Calm c.channel (leave c.writer_eventfd) r in
    let quiet = with_channel c.channel (leave c.writer_eventfd) r in
    let route = lookup c.session_id quiet.session_to_stream in
    Calm-trans r _ _ left (
      Calm-trans quiet _ _ (pause_route-Calm route quiet)
        (closing-Calm (pause_route route quiet) _ _))

pub cleanup_fd-Calm : (fd : ℕ) (r : Registry) → Calm r (cleanup_fd fd r)
unfolding cleanup_fd
cleanup_fd-Calm fd r = elim (Option-cases (lookup fd r.connections)) [
  | inl missing ↦ rw (missing, cleanup_fd) (Calm-self r)
  | inr (c, h) ↦
      rw (h, cleanup_fd)
        (Calm-trans r _ _ (cleanup_connection-Calm c r) (closing-Calm (cleanup_connection c r) _ _))
]

pub cleanup_fds-Calm : (fds : List ℕ) (r : Registry) → Calm r (cleanup_fds fds r)
unfolding cleanup_fds
cleanup_fds-Calm [] r = Calm-self r
cleanup_fds-Calm (fd ∷ fds) r =
    Calm-trans r _ _ (cleanup_fd-Calm fd r) (cleanup_fds-Calm fds (cleanup_fd fd r))
