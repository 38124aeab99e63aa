-- ===== src/Runtime/Publication/Refusal.antt =====
-- Why `reconcile_rtsp_publication_locked` publishes nothing, and what it leaves of an entry.
use insight_io.Base.{
  ℕ, ◌≡◌, refl, ap, Bool, true, false, not, ◌&&◌, Option, none, some, List, [], ◌∷◌, map, ◌++◌,
  codes, if◌then◌else◌, Text,
}
use mathlib.Core.Path.{ap₂}
use insight_io.Types.{ResolvedCaps}
use insight_io.Ipc.Ring.{Call}
use insight_io.Runtime.Frames.{deliver_channel}
use insight_io.Rtsp.{build_rtsp_publication_plan}
use insight_io.Runtime.State.{ChannelState, RtspPublicationState, State, Entry, Answers}
use insight_io.Runtime.Publication.{
  any_published, is_running, is_idle, reset_channel, deliver_calls, wait_frames,
}

-- What identifies the channel, and who is attached to it.
abbrev pub identity : ChannelState → ℕ × Text × ResolvedCaps × ℕ
identity c = (c.number, c.stream_name, c.delivered_caps, c.attached_consumers)

-- The entry `r` differs from `entry` in the runtime's progress only.
pub record Keeps (entry r : Entry) : Type 0 where
  pub runtime_key : r.runtime_key ≡ entry.runtime_key
  pub owner : r.owner_session_id ≡ entry.owner_session_id
  pub consumers : r.consumer_rtsp ≡ entry.consumer_rtsp
  pub aliases : r.channel_aliases ≡ entry.channel_aliases
  pub channels : map identity r.channels ≡ map identity entry.channels
  pub desired : r.rtsp_publication.desired ≡ entry.rtsp_publication.desired

pub kept :
    (entry : Entry) (cs : List ChannelState) (p : RtspPublicationState) (st : State) (e : Text)
    (w : Option Bool)
    → map identity cs ≡ map identity entry.channels
    → p.desired ≡ entry.rtsp_publication.desired
    → Keeps entry (record entry {
      channels = cs;
      rtsp_publication = p;
      state = st;
      last_error = e;
      worker = w;
    })
kept entry cs p st e w channels desired = record {
  runtime_key = refl;
  owner = refl;
  consumers = refl;
  aliases = refl;
  channels = channels;
  desired = desired;
}

pub reset-identity :
    (cs : List ChannelState) → map identity (map reset_channel cs) ≡ map identity cs
unfolding reset_channel
reset-identity [] = refl
reset-identity (c ∷ cs) = ap (λ l. identity c ∷ l) (reset-identity cs)

deliver-identity :
    (ks : List (Call × Bool)) (c : ChannelState) → identity (deliver_calls ks c) ≡ identity c
unfolding deliver_calls deliver_channel
deliver-identity [] c = refl
deliver-identity ((k, taken) ∷ ks) c =
    deliver-identity ks (deliver_channel c k.bytes k.size k.pts_ns k.flags)

pub wait-identity :
    (f : ℕ → List (Call × Bool)) (cs : List ChannelState)
    → map identity (wait_frames f cs) ≡ map identity cs
unfolding wait_frames
wait-identity f [] = refl
wait-identity f (c ∷ cs) = ap₂ (λ x l. x ∷ l) (deliver-identity (f c.number) c) (wait-identity f cs)

-- The first reason of two, if there is one.
abbrev pub or_else : Option Text → Option Text → Option Text
or_else none o = o
or_else (some reason) o = some reason

-- Why a channel cannot be published.
abbrev pub format_refusal : ChannelState → Option Text
format_refusal c = elim (build_rtsp_publication_plan c.delivered_caps) [
  | some plan ↦ none
  | none ↦ some (
      codes "RTSP publication does not support delivered format '"
      ++ c.delivered_caps.format
      ++ codes "'")
]

-- Why channels cannot be published: there must be exactly one.
abbrev pub channels_refusal : List ChannelState → Option Text
channels_refusal (c ∷ []) = format_refusal c
channels_refusal cs =
    some (codes "RTSP publication currently supports exact single-channel sources only")

-- Why the publisher does not run: only one that must be started can fail.
abbrev pub publisher_refusal : Answers → Entry → Option Text
publisher_refusal answers entry =
    if is_running entry.rtsp_publication.publisher then none else answers.publisher_start

-- Why the worker gives nothing to publish: an idle one does not start, or it ends without a frame.
abbrev pub worker_refusal : Answers → Entry → Option Text
worker_refusal answers entry =
    if is_idle entry.worker
    then or_else answers.worker_start (
        if not answers.worker_survives
          && not (any_published (wait_frames answers.frames (map reset_channel entry.channels)))
        then some (codes "capture worker exited before publishing frames")
        else none)
    else none

-- Why nothing is published, of the reasons in this order.
abbrev pub refusal : Answers → Entry → Option Text
refusal answers entry =
    or_else (channels_refusal entry.channels)
      (or_else (publisher_refusal answers entry) (worker_refusal answers entry))

abbrev pub is_none : Option Text → Bool
is_none none = true
is_none (some reason) = false

abbrev pub text_or_empty : Option Text → Text
text_or_empty none = []
text_or_empty (some reason) = reason
