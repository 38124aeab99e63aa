-- ===== src/Runtime/Publication.antt =====
-- The helpers of `ServingRuntimeRegistry` that work on one entry, `reconcile_rtsp_publication_locked`
-- above all.
pub mod Refusal
pub mod Started
pub mod Reconcile
use insight_io.Base.{
  ℕ, suc, ◌+◌, Bool, true, false, not, ◌&&◌, ◌||◌, Option, none, some, List, [], ◌∷◌, ◌++◌, map,
  ltb, ◌==◌, if◌then◌else◌, Text, codes, is_empty, length,
}
use insight_io.Types.{ResolvedCaps}
use insight_io.Ipc.Ring.{Call, reset}
use insight_io.Runtime.Frames.{deliver_channel}
use insight_io.Rtsp.{RtspPublicationPlan, build_rtsp_publication_plan}
use insight_io.Runtime.State.{
  Source, ChannelState, RtspPublicationState, State, ready, active, stopped, Entry, Answers,
}

unfoldable pub any_rtsp : List (ℕ × Bool) → Bool
any_rtsp [] = false
any_rtsp ((session_id, wanted) ∷ consumers) = wanted || any_rtsp consumers

-- `effective_rtsp_locked`
abbrev pub effective_rtsp : Entry → Bool
effective_rtsp entry = any_rtsp entry.consumer_rtsp

unfoldable pub any_attached : List ChannelState → Bool
any_attached [] = false
any_attached (c ∷ cs) = ltb 0 c.attached_consumers || any_attached cs

-- `has_ipc_consumers_locked`
abbrev pub has_ipc_consumers : Entry → Bool
has_ipc_consumers entry = any_attached entry.channels

unfoldable pub any_published : List ChannelState → Bool
any_published [] = false
any_published (c ∷ cs) = ltb 0 c.frames_published || any_published cs

abbrev pub is_running : Option Bool → Bool
is_running none = false
is_running (some running) = running

-- A worker that is there and does not run.
abbrev pub is_idle : Option Bool → Bool
is_idle none = false
is_idle (some running) = not running

unfoldable pub reset_channel : ChannelState → ChannelState
reset_channel c = record c {
  frames_published = 0;
  first_frame = true;
  memory = reset c.writer c.memory;
}

-- `reset_channel_runtime_state_locked`
abbrev pub reset_channels : Entry → Entry
reset_channels entry = record entry { channels = map reset_channel entry.channels }

-- `pause_idle_worker_locked`
unfoldable pub pause_idle_worker : Entry → Entry
pause_idle_worker entry = record (reset_channels entry) {
  worker = if is_running entry.worker then some false else entry.worker;
  state = ready;
  last_error = [];
}

abbrev pub rtsp_url : Text → Entry → Text
rtsp_url rtsp_host entry =
    codes "rtsp://"
    ++ rtsp_host
    ++ codes "/"
    ++ entry.source.public_name
    ++ codes "/"
    ++ entry.source.stream_public_name

abbrev pub with_publication : Entry → RtspPublicationState → Entry
with_publication entry publication = record entry { rtsp_publication = publication }

-- The publisher is stopped and dropped, and the publication has this error.
abbrev pub unpublished : Entry → Text → Entry
unpublished entry reason =
    with_publication entry
      (record (entry.rtsp_publication) { publisher = none; last_error = reason })

-- The branch of `reconcile_rtsp_publication_locked` in which no consumer wants RTSP.
unfoldable pub unpublish : Entry → Entry
unpublish entry =
    let quiet = with_publication entry (record (entry.rtsp_publication) {
      publisher = none;
      frames_forwarded = 0;
      last_error = [];
      supported = false;
    }) in
    if not (has_ipc_consumers entry) && is_running entry.worker
    then pause_idle_worker quiet
    else quiet

-- The frames that a channel gets, each by the worker's callback.
unfoldable pub deliver_calls : List (Call × Bool) → ChannelState → ChannelState
deliver_calls [] c = c
deliver_calls ((k, taken) ∷ ks) c =
    deliver_calls ks (deliver_channel c k.bytes k.size k.pts_ns k.flags)

-- The frames that the channels get while the code waits.
unfoldable pub wait_frames : (ℕ → List (Call × Bool)) → List ChannelState → List ChannelState
unfolding deliver_calls
wait_frames frames = map (λ c. deliver_calls (frames c.number) c)

abbrev pub count_taken : List (Call × Bool) → ℕ
count_taken [] = 0
count_taken ((k, taken) ∷ ks) = if taken then suc (count_taken ks) else count_taken ks

-- How many frames a publisher takes during the wait.
unfoldable pub taken_in : (ℕ → List (Call × Bool)) → List ChannelState → ℕ
taken_in frames [] = 0
taken_in frames (c ∷ cs) = count_taken (frames c.number) + taken_in frames cs

-- What the callback counts for the publisher, if there is one.
abbrev pub forward_all : ℕ → RtspPublicationState → RtspPublicationState
forward_all n publication = record publication {
  frames_forwarded = elim publication.publisher [
    | none ↦ publication.frames_forwarded
    | some running ↦ publication.frames_forwarded + n
  ];
}

abbrev pub no_frames_error : Text
no_frames_error = codes "capture worker exited before publishing frames"

abbrev pub cleared_error : Entry → Entry
cleared_error entry = with_publication entry (record (entry.rtsp_publication) { last_error = [] })

-- The part of `reconcile_rtsp_publication_locked` that starts an idle worker.
unfoldable pub start_worker : Answers → Entry → Entry
start_worker answers entry =
    let fresh = reset_channels entry in
    if is_idle entry.worker
    then elim answers.worker_start [
      | some worker_error ↦ unpublished fresh worker_error
      | none ↦
          let waited = record fresh {
            worker = some answers.worker_survives;
            state = active;
            last_error = [];
            channels = wait_frames answers.frames fresh.channels;
            rtsp_publication =
                forward_all (taken_in answers.frames fresh.channels) fresh.rtsp_publication;
          } in
          if not answers.worker_survives && not (any_published waited.channels)
          then record (unpublished waited no_frames_error) { state = ready }
          else cleared_error waited
    ]
    else cleared_error entry

-- The part that starts the publisher, if it does not run.
unfoldable pub start_publisher : Answers → Entry → Entry
unfolding start_worker
start_publisher answers entry =
    let publication = entry.rtsp_publication in
    if is_running publication.publisher
    then start_worker answers entry
    else elim answers.publisher_start [
      | some publisher_error ↦
          unpublished (with_publication entry (record publication { frames_forwarded = 0 }))
            publisher_error
      | none ↦ start_worker answers (
          with_publication entry
            (record publication { frames_forwarded = 0; publisher = some true }))
    ]

-- The publication of a channel.
abbrev pub channel_publication : Text → Entry → ChannelState → RtspPublicationState
channel_publication rtsp_host entry channel = record (entry.rtsp_publication) {
  stream_name = channel.stream_name;
  selector = channel.selector;
  actual_format = channel.delivered_caps.format;
  url = rtsp_url rtsp_host entry;
}

-- The publication of a channel that a plan covers.
abbrev pub planned_publication : RtspPublicationState → RtspPublicationPlan → RtspPublicationState
planned_publication publication plan = record publication {
  supported = true;
  promised_format = plan.promised_format;
  actual_format = plan.actual_format;
}

-- The part for an entry with one channel.
unfoldable pub publish_channel : Text → Answers → Entry → ChannelState → Entry
unfolding start_publisher
publish_channel rtsp_host answers entry channel =
    let named = channel_publication rtsp_host entry channel in
    elim (build_rtsp_publication_plan channel.delivered_caps) [
      | none ↦ unpublished (with_publication entry (record named { supported = false })) (
          codes "RTSP publication does not support delivered format '"
          ++ channel.delivered_caps.format
          ++ codes "'")
      | some plan ↦
          start_publisher answers (with_publication entry (planned_publication named plan))
    ]

abbrev single_channel_error : Text
single_channel_error = codes "RTSP publication currently supports exact single-channel sources only"

unfoldable pub publish_channels : Text → Answers → Entry → List ChannelState → Entry
unfolding publish_channel
publish_channels rtsp_host answers entry (channel ∷ []) =
    publish_channel rtsp_host answers entry channel
publish_channels rtsp_host answers entry channels =
    let refused = record (entry.rtsp_publication) { supported = false } in
    unpublished (with_publication entry refused) single_channel_error

-- The publication of an entry that a consumer wants published.
abbrev pub desired_publication : Entry → RtspPublicationState
desired_publication entry = record (entry.rtsp_publication) {
  desired = effective_rtsp entry;
  publication_id = entry.runtime_key ++ codes ":rtsp";
  publication_profile = codes "default";
  transport = codes "rtsp";
}

-- `reconcile_rtsp_publication_locked`
unfoldable pub reconcile : Text → Answers → Entry → Entry
unfolding unpublish publish_channels
reconcile rtsp_host answers entry =
    let publication = record (entry.rtsp_publication) { desired = effective_rtsp entry } in
    if effective_rtsp entry
    then publish_channels rtsp_host answers (with_publication entry (desired_publication entry))
        entry.channels
    else unpublish (with_publication entry publication)

-- `stop_entry_locked`
unfoldable pub stop_entry : Entry → Entry
stop_entry entry = record entry {
  rtsp_publication = record (entry.rtsp_publication) { publisher = none };
  worker = none;
  channel_aliases = [];
  channels = [];
  state = stopped;
}
