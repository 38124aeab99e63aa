-- ===== src/Runtime/Frames.antt =====
-- The frame callback that `realize_runtime_locked` gives the capture worker.
pub mod Marked
use Prim.Native.Nat.{bit_or}
use insight_io.Base.{
  ℕ, ◌+◌, Bool, true, false, Option, none, some, List, [], ◌∷◌, map, ◌==◌, if◌then◌else◌, Text,
  text_eq,
}
use insight_io.Ipc.Ring.{write}
use insight_io.Runtime.State.{ChannelState, RtspPublicationState, Entry}

abbrev pub if_numbered : ℕ → (ChannelState → ChannelState) → ChannelState → ChannelState
if_numbered number f c = if c.number == number then f c else c

-- `kFlagCapsChange`
abbrev pub caps_change : ℕ
caps_change = 1

-- `runtime_flags`
abbrev pub runtime_flags : Bool → ℕ → ℕ
runtime_flags first_frame flags = if first_frame then bit_or flags caps_change else flags

-- The part for the channel of the frame's stream.
unfoldable pub deliver_channel : ChannelState → Option (List ℕ) → ℕ → ℕ → ℕ → ChannelState
deliver_channel c bytes size pts_ns flags =
    let (written, memory, signalled) =
      write c.writer c.memory bytes size pts_ns 0 (runtime_flags c.first_frame flags) in
    record c {
      first_frame = false;
      memory = memory;
      frames_published = if written then c.frames_published + 1 else c.frames_published;
    }

-- `callback_channels.find(stream_name)`: of channels with one name the last was stored.
unfoldable pub find_stream : Text → List ChannelState → Option ChannelState
find_stream name [] = none
find_stream name (c ∷ cs) = elim (find_stream name cs) [
  | some later ↦ some later
  | none ↦ if text_eq c.stream_name name then some c else none
]

-- The part for the publisher: `published` is what its `publish` answers.
abbrev pub forward : Bool → RtspPublicationState → RtspPublicationState
forward published publication = elim publication.publisher [
  | none ↦ publication
  | some running ↦
      if published
      then record publication { frames_forwarded = publication.frames_forwarded + 1 }
      else publication
]

unfoldable pub deliver_frame : Bool → Entry → Text → Option (List ℕ) → ℕ → ℕ → ℕ → Entry
unfolding deliver_channel find_stream
deliver_frame published entry stream_name bytes size pts_ns flags =
    elim (find_stream stream_name entry.channels) [
      | none ↦ entry
      | some c ↦ record entry {
        channels =
            map (if_numbered c.number (λ _. deliver_channel c bytes size pts_ns flags))
              entry.channels;
        rtsp_publication = forward published entry.rtsp_publication;
      }
    ]
