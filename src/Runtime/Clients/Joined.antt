-- ===== src/Runtime/Clients/Joined.antt =====
-- What `attach_ipc_consumer_locked` leaves as it is.
use insight_io.Base.{
  ℕ, ◌≡◌, refl, arith, true, not, some, List, [], ◌∷◌, map, ltb, inl, inr, Bool-cases, if_by_cases,
  failed_by_cases, result_by_cases, Text, Option-cases, Result, ok,
}
use insight_io.Base.Map.{lookup, insert, insert-hit}
use insight_io.Runtime.State.{ChannelState, Entry, ActiveConnection, Registry, Answers}
use insight_io.Runtime.Publication.{any_attached, has_ipc_consumers}
use insight_io.Runtime.Connections.Calm.{
  Steady, Calm, Calm-self, Calm-trans, insert-Calm, closing-Calm,
}
use insight_io.Runtime.Frames.{if_numbered}
use insight_io.Ipc.Channel.{FdEvent}
use insight_io.Ipc.Ring.{add_reader_eventfd}
use insight_io.Runtime.Clients.{
  only_channel, is_serving, Grants, find_channel, find_alias, start_for_reader, choose_channel,
  lease_channel, join_channel, attach_ipc_consumer, register_connection,
}

start_for_reader-Steady : (answers : Answers) (e : Entry) → Steady e (start_for_reader answers e).0
unfolding start_for_reader
start_for_reader-Steady answers e = record {
  runtime_key = ground arith;
  owner = ground arith;
  consumers = ground arith;
  desired = ground arith;
}

-- An entry's place in the registry taken by one that is steady, whatever is opened and closed.
placed-Calm :
    (st : ℕ) (e d : Entry) (r : Registry) (es : List FdEvent)
    → lookup st r.entries ≡ some e
    → Steady e d
    → Calm r (record r { entries = insert st d r.entries; trace = es })
placed-Calm st e d r es h steady =
    Calm-trans r _ _ (insert-Calm st e d r h steady) (closing-Calm _ r.connections es)

lease_channel-Calm :
    (grants : Grants) (session_id st : ℕ) (e d : Entry) (c : ChannelState) (r : Registry)
    → lookup st r.entries ≡ some e
    → Steady e d
    → Calm r (lease_channel grants session_id st d c r).0
unfolding lease_channel add_reader_eventfd
lease_channel-Calm grants session_id st e d c r h steady = elim (Option-cases grants.eventfd) [
  | inl refused ↦ rw (refused, lease_channel) (placed-Calm st e d r r.trace h steady)
  | inr (fd, granted) ↦ elim (Option-cases grants.dup) [
    | inl refused ↦
        rw (granted, lease_channel)
          (rw (refused, add_reader_eventfd) (placed-Calm st e d r _ h steady))
    | inr (copy, doubled) ↦
        rw (granted, lease_channel)
          (rw (doubled, add_reader_eventfd)
            (placed-Calm st e _ r _ h (record {
              runtime_key = steady.runtime_key;
              owner = steady.owner;
              consumers = steady.consumers;
              desired = steady.desired;
            })))
  ]
]

join_channel-Calm :
    (answers : Answers) (grants : Grants) (session_id : ℕ) (name : Text) (st : ℕ) (e : Entry)
    (r : Registry)
    → lookup st r.entries ≡ some e
    → Calm r (join_channel answers grants session_id name st e r).0
unfolding join_channel
join_channel-Calm answers grants session_id name st e r h =
    let steady = start_for_reader-Steady answers e in
    let stored = placed-Calm st e _ r r.trace h steady in
    let started = start_for_reader answers e in
    let calm : Registry × Result ActiveConnection → Type 0 = λ x. Calm r x.0 in
    if_by_cases calm (not (is_serving e.state)) _ _ (λ _. Calm-self r)
      (λ _.
        failed_by_cases calm started.1 _ _ (λ _. stored)
          (result_by_cases calm (choose_channel name started.0) _ _ (λ _. stored)
            (λ c _. lease_channel-Calm grants session_id st e started.0 c r h steady)))

-- A client that gets a channel, or fails to, leaves the sessions and each entry's consumers.
pub attach_ipc_consumer-Calm :
    (answers : Answers) (grants : Grants) (session_id : ℕ) (name : Text) (r : Registry)
    → Calm r (attach_ipc_consumer answers grants session_id name r).0
unfolding attach_ipc_consumer
attach_ipc_consumer-Calm answers grants session_id name r =
    elim (Option-cases (lookup session_id r.session_to_stream)) [
      | inl unused ↦ rw (unused, attach_ipc_consumer) (Calm-self r)
      | inr (st, used) ↦ elim (Option-cases (lookup st r.entries)) [
        | inl missing ↦ rw (used, attach_ipc_consumer) (rw missing (Calm-self r))
        | inr (e, there) ↦
            rw (used, attach_ipc_consumer)
              (rw there (join_channel-Calm answers grants session_id name st e r there))
      ]
    ]

pub register_connection-Calm :
    (grants : Grants) (connection : ActiveConnection) (r : Registry)
    → Calm r (register_connection grants connection r).0
unfolding register_connection
register_connection-Calm grants connection r = elim (Bool-cases grants.epoll_open) [
  | inr shut ↦ rw (shut, register_connection) (Calm-self r)
  | inl ready ↦ elim (Option-cases connection.client_fd) [
    | inl missing ↦ rw (ready, register_connection) (rw missing (Calm-self r))
    | inr (fd, client) ↦ elim (Bool-cases grants.epoll_add) [
      | inl taken ↦
          rw (ready, register_connection) (rw client (rw taken (closing-Calm r _ r.trace)))
      | inr refused ↦ rw (ready, register_connection) (rw client (rw refused (Calm-self r)))
    ]
  ]
]

-- The channel of a name stays in use once it counts a reader.
find_channel-used :
    (n : ℕ) (cs : List ChannelState) (c d : ChannelState)
    → find_channel n cs ≡ some c
    → ltb 0 d.attached_consumers ≡ true
    → any_attached (map (if_numbered c.number (λ _. d)) cs) ≡ true
unfolding find_channel any_attached
find_channel-used n [] c d h used = cc
find_channel-used n (b ∷ cs) c d h used = ground (arith, find_channel-used n cs c d)

only_channel-used :
    (cs : List ChannelState) (c d : ChannelState)
    → only_channel cs ≡ ok c
    → ltb 0 d.attached_consumers ≡ true
    → any_attached (map (if_numbered c.number (λ _. d)) cs) ≡ true
unfolding any_attached
only_channel-used [] c d h used = absurd cc
only_channel-used (b ∷ []) c d h used = let same : b ≡ c = cc in ground arith
only_channel-used (b ∷ b' ∷ cs) c d h used = absurd cc

choose_channel-used :
    (name : Text) (e : Entry) (c d : ChannelState)
    → choose_channel name e ≡ ok c
    → ltb 0 d.attached_consumers ≡ true
    → any_attached (map (if_numbered c.number (λ _. d)) e.channels) ≡ true
unfolding choose_channel
choose_channel-used name e c d h used = elim (Option-cases (find_alias name e.channel_aliases)) [
  | inl unnamed ↦ ground (arith, only_channel-used e.channels c d)
  | inr (n, named) ↦
      ground (arith, only_channel-used e.channels c d, find_channel-used n e.channels c d)
]

-- If the answer is a channel, the stream's entry counts as used by readers.
abbrev Used : ℕ → Registry × Result ActiveConnection → Type 0
Used st x =
    (connection : ActiveConnection)
    → x.1 ≡ ok connection
    → (e : Entry) × (lookup st x.0.entries ≡ some e) × (has_ipc_consumers e ≡ true)

lease_channel-Used :
    (grants : Grants) (session_id st : ℕ) (d : Entry) (c : ChannelState) (name : Text)
    (r : Registry)
    → choose_channel name d ≡ ok c
    → Used st (lease_channel grants session_id st d c r)
unfolding lease_channel add_reader_eventfd
lease_channel-Used grants session_id st d c name r chosen = elim (Option-cases grants.eventfd) [
  | inl refused ↦ rw (refused, lease_channel) (λ connection h. absurd cc)
  | inr (fd, granted) ↦ elim (Option-cases grants.dup) [
    | inl refused ↦
        rw (granted, lease_channel) (rw (refused, add_reader_eventfd) (λ connection h. absurd cc))
    | inr (copy, doubled) ↦
        rw (granted, lease_channel)
          (rw (doubled, add_reader_eventfd)
            (λ connection h.
              (_, insert-hit st _ r.entries, choose_channel-used name d c _ chosen (ground arith))))
  ]
]

join_channel-Used :
    (answers : Answers) (grants : Grants) (session_id : ℕ) (name : Text) (st : ℕ) (e : Entry)
    (r : Registry)
    → Used st (join_channel answers grants session_id name st e r)
unfolding join_channel
join_channel-Used answers grants session_id name st e r =
    let started = start_for_reader answers e in
    if_by_cases (Used st) (not (is_serving e.state)) _ _ (λ _ connection h. absurd cc)
      (λ _.
        failed_by_cases (Used st) started.1 _ _ (λ _ connection h. absurd cc)
          (result_by_cases (Used st) (choose_channel name started.0) _ _
            (λ _ connection h. absurd cc)
            (λ c chosen. lease_channel-Used grants session_id st started.0 c name r chosen)))

ServedBy : ℕ → Registry → Registry × Result ActiveConnection → Type 0
ServedBy session_id r x =
    (connection : ActiveConnection)
    → x.1 ≡ ok connection
    → (st : ℕ) × (e : Entry) × (lookup session_id r.session_to_stream ≡ some st)
      × (lookup st x.0.entries ≡ some e)
      × (has_ipc_consumers e ≡ true)

attach_ipc_consumer-Served :
    (answers : Answers) (grants : Grants) (session_id : ℕ) (name : Text) (r : Registry)
    → ServedBy session_id r (attach_ipc_consumer answers grants session_id name r)
unfolding ServedBy attach_ipc_consumer
attach_ipc_consumer-Served answers grants session_id name r =
    elim (Option-cases (lookup session_id r.session_to_stream)) [
      | inl unused ↦ rw (unused, attach_ipc_consumer) (λ connection h. absurd cc)
      | inr (st, used) ↦ elim (Option-cases (lookup st r.entries)) [
        | inl missing ↦ rw (used, attach_ipc_consumer) (rw missing (λ connection h. absurd cc))
        | inr (e, there) ↦
            rw (used, attach_ipc_consumer)
              (rw there (λ connection h.
                let (d, found, busy) =
                  join_channel-Used answers grants session_id name st e r connection h in
                (st, d, refl, found, busy)))
      ]
    ]

-- If `attach_ipc_consumer` answers with a connection, its session has a stream, and the entry of
-- that stream then counts as used by readers.
pub attach_ipc_consumer-used :
    (answers : Answers) (grants : Grants) (session_id : ℕ) (name : Text) (r : Registry)
    (connection : ActiveConnection)
    → (attach_ipc_consumer answers grants session_id name r).1 ≡ ok connection
    → (st : ℕ) × (e : Entry) × (lookup session_id r.session_to_stream ≡ some st)
      × (lookup st (attach_ipc_consumer answers grants session_id name r).0.entries ≡ some e)
      × (has_ipc_consumers e ≡ true)
unfolding ServedBy
attach_ipc_consumer-used answers grants session_id name r connection h =
    attach_ipc_consumer-Served answers grants session_id name r connection h
