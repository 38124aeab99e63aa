-- ===== src/Runtime/Realize.antt =====
-- `realize_runtime_locked` of `ServingRuntimeRegistry`: the channels and the worker of a new entry.
use insight_io.Base.{
  ℕ, suc, true, false, none, some, List, [], ◌∷◌, ◌++◌, if◌then◌else◌, Text, codes, is_empty,
  Result, ok, err,
}
use insight_io.Types.Decimal.{to_string}
use insight_io.Ipc.Channel.{done, failed, ChannelSpec, create_channel, attach_writer}
use insight_io.Runtime.State.{ChannelState, ready, Entry, RuntimeChannelPlan, Session, System}

abbrev pub runtime_key_for : ℕ → Text
runtime_key_for stream_id = codes "stream:" ++ to_string stream_id

abbrev spec_of : Text → RuntimeChannelPlan → ChannelSpec
spec_of runtime_key plan = record {
  channel_id = runtime_key ++ codes ":" ++ plan.stream_name;
  buffer_slots = 8;
  max_payload_bytes = plan.max_payload_bytes;
  reader_count = 0;
}

-- The body of the loop over the plan's channels, for the channel with this number.
unfoldable pub realize_channel : System → Text → ℕ → RuntimeChannelPlan → Result ChannelState
realize_channel system runtime_key number plan =
    let spec = spec_of runtime_key plan in
    elim (create_channel system.os spec).0 [
      | err e ↦ err e
      | ok channel ↦ elim (system.dup channel.memfd) [
        | failed reason ↦ err (record { code = codes "ipc_error"; message = reason })
        | done memfd ↦ elim (attach_writer system.os (some memfd) channel.memory []) [
          | err e ↦ err e
          | ok writer ↦ ok (record {
            number = number;
            channel_id = spec.channel_id;
            stream_name = plan.stream_name;
            route_name = plan.route_name;
            selector = plan.selector;
            media_kind = plan.media_kind;
            delivered_caps = plan.delivered_caps;
            writer = writer;
            memory = channel.memory;
            frames_published = 0;
            attached_consumers = 0;
            first_frame = true;
          })
        ]
      ]
    ]

-- `channel_aliases[name] = state`: the newest entry of a name is the one that counts.
abbrev pub set_alias : Text → ℕ → List (Text × ℕ) → List (Text × ℕ)
set_alias name number aliases = (name, number) ∷ aliases

-- The names of a channel: its stream, its route and its selector, where it has them, and its id.
unfoldable pub name_channel : ChannelState → List (Text × ℕ) → List (Text × ℕ)
name_channel c aliases =
    let streamed = set_alias c.stream_name c.number aliases in
    let routed =
      if is_empty c.route_name then streamed else set_alias c.route_name c.number streamed in
    let selected = if is_empty c.selector then routed else set_alias c.selector c.number routed in
    set_alias c.channel_id c.number selected

-- The loop over the plan's channels.
unfoldable pub realize_channels : System → ℕ → Entry → List RuntimeChannelPlan → Result Entry
unfolding realize_channel name_channel
realize_channels system number entry [] = ok entry
realize_channels system number entry (plan ∷ plans) =
    elim (realize_channel system entry.runtime_key number plan) [
      | err e ↦ err e
      | ok c ↦
          realize_channels system (suc number)
            (record entry {
              channels = entry.channels ++ c ∷ [];
              channel_aliases = name_channel c entry.channel_aliases;
            })
            plans
    ]

-- `realize_runtime_locked`; an entry that fails is erased by its caller, so only the error is left.
unfoldable pub realize_runtime : System → ℕ → Entry → Session → Result Entry
unfolding realize_channels
realize_runtime system number entry session = elim session.plan [
  | err e ↦ err e
  | ok plan ↦
      elim (realize_channels system number (record entry { channels = []; channel_aliases = [] })
        plan.channels) [
          | err e ↦ err e
          | ok realized ↦ elim plan.worker [
            | some e ↦ err e
            | none ↦ ok (record realized { worker = some false; state = ready; last_error = [] })
          ]
        ]
]
