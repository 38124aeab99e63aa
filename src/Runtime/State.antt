-- ===== src/Runtime/State.antt =====
-- The state of `ServingRuntimeRegistry` in backend/src/session_service.cpp.
--
-- A `shared_ptr<ChannelState>` is the channel's number: a channel of no entry can no longer be
-- observed. The memory of a channel's ring is part of its state.
use insight_io.Base.{ℕ, Bool, false, Option, none, List, [], Text, Error, Result}
use insight_io.Types.{ResolvedCaps}
use insight_io.Ipc.Ring.{Memory, Writer, Call}
use insight_io.Ipc.Channel.{Os, Sys, FdEvent}

-- The fields of `SessionResolvedSource` that the registry computes with.
pub record Source : Type 0 where
  pub stream_id : ℕ
  pub public_name : Text
  pub stream_public_name : Text

pub record ChannelState : Type 0 where
  pub number : ℕ
  pub channel_id : Text
  pub stream_name : Text
  pub route_name : Text
  pub selector : Text
  pub media_kind : Text
  pub delivered_caps : ResolvedCaps
  pub writer : Writer
  pub memory : Memory
  pub frames_published : ℕ
  pub attached_consumers : ℕ
  pub first_frame : Bool

-- `publisher` is the running state of the publisher, if there is one.
pub record RtspPublicationState : Type 0 where
  pub publication_id : Text
  pub stream_name : Text
  pub selector : Text
  pub url : Text
  pub publication_profile : Text
  pub transport : Text
  pub promised_format : Text
  pub actual_format : Text
  pub last_error : Text
  pub desired : Bool
  pub supported : Bool
  pub publisher : Option Bool
  pub frames_forwarded : ℕ

-- The values of `Entry::state`; `blank` is the empty text of a new entry.
pub data State : Type 0 where
  blank starting ready active error stopped : State

-- `worker` is the running state of the capture worker, if there is one.
pub record Entry : Type 0 where
  pub runtime_key : Text
  pub source : Source
  pub owner_session_id : ℕ
  pub state : State
  pub last_error : Text
  pub consumer_rtsp : List (ℕ × Bool)
  pub channels : List ChannelState
  pub channel_aliases : List (Text × ℕ)
  pub rtsp_publication : RtspPublicationState
  pub worker : Option Bool

-- `channel` is the number of the channel; a descriptor that is not open is `none`.
pub record ActiveConnection : Type 0 where
  pub session_id : ℕ
  pub channel : ℕ
  pub leased_eventfd : Option ℕ
  pub writer_eventfd : ℕ
  pub client_fd : Option ℕ

-- `trace` holds the descriptors that the registry's own code opened and closed, the newest first;
-- those that a writer duplicates and closes are in the writer's list.
-- `next_channel` is the number of the next channel.
pub record Registry : Type 0 where
  pub entries : List (ℕ × Entry)
  pub session_to_stream : List (ℕ × ℕ)
  pub connections : List (ℕ × ActiveConnection)
  pub next_channel : ℕ
  pub trace : List FdEvent

pub record RuntimeChannelPlan : Type 0 where
  pub stream_name : Text
  pub route_name : Text
  pub selector : Text
  pub media_kind : Text
  pub delivered_caps : ResolvedCaps
  pub max_payload_bytes : ℕ

-- The result of `build_runtime_plan` for a session: its channels, and whether `create_worker` can
-- make its worker.
pub record RuntimePlan : Type 0 where
  pub channels : List RuntimeChannelPlan
  pub worker : Option Error

pub record Session : Type 0 where
  pub session_id : ℕ
  pub rtsp_enabled : Bool
  pub source : Source
  pub plan : Result RuntimePlan

-- What the processes and threads outside answer while an operation runs: `none` for a start that
-- works, the error for one that fails; whether the worker still runs after the wait of 200 ms; and
-- the frames that each channel gets during that wait, with whether a publisher takes them.
pub record Answers : Type 0 where
  pub publisher_start : Option Text
  pub worker_start : Option Text
  pub worker_survives : Bool
  pub frames : ℕ → List (Call × Bool)

-- The system calls of `create_channel` and `attach_writer`, and `dup` of the channel's descriptor.
pub record System : Type 0 where
  pub os : Os
  pub dup : ℕ → Sys ℕ

abbrev pub blank_publication : RtspPublicationState
blank_publication = record {
  publication_id = [];
  stream_name = [];
  selector = [];
  url = [];
  publication_profile = [];
  transport = [];
  promised_format = [];
  actual_format = [];
  last_error = [];
  desired = false;
  supported = false;
  publisher = none;
  frames_forwarded = 0;
}

-- `Entry{}`, which `entries_[stream_id]` makes of a missing entry.
abbrev pub blank_entry : Entry
blank_entry = record {
  runtime_key = [];
  source = record { stream_id = 0; public_name = []; stream_public_name = [] };
  owner_session_id = 0;
  state = blank;
  last_error = [];
  consumer_rtsp = [];
  channels = [];
  channel_aliases = [];
  rtsp_publication = blank_publication;
  worker = none;
}

abbrev pub empty_registry : Registry
empty_registry = record {
  entries = [];
  session_to_stream = [];
  connections = [];
  next_channel = 0;
  trace = [];
}
