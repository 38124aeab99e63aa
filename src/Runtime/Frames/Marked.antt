-- ===== src/Runtime/Frames/Marked.antt =====
-- Which frames of a channel carry `kFlagCapsChange`.
use mathlib.Core.List.{append_assoc, append-nil}
use Prim.Native.Nat.{bit_or}
use insight_io.Base.{
  ℕ, map, if◌then◌else◌, ◌+◌, ◌<◌, ◌≡◌, refl, Bool, true, false, List, [], ◌∷◌, ◌++◌, arith, length,
  length-append, u32_mod, u64_mod,
}
use insight_io.Ipc.Ring.{Writer, Frame, Call}
use insight_io.Ipc.Ring.Window.{Represents}
use insight_io.Ipc.Ring.Write.{frame_of_call, write-Represents}
use insight_io.Ipc.Ring.Reset.{reset-Represents}
use insight_io.Ipc.Ring.Stream.{AllGiven}
use insight_io.Runtime.State.{ChannelState}
use insight_io.Runtime.Publication.{reset_channel}
use insight_io.Runtime.Frames.{runtime_flags, deliver_channel}

-- A worker's frames for one channel, in order.
pub deliver_all : ChannelState → List Call → ChannelState
deliver_all c [] = c
deliver_all c (k ∷ ks) = deliver_all (deliver_channel c k.bytes k.size k.pts_ns k.flags) ks

-- The frame of a call with these flags.
abbrev pub flagged : Writer → ℕ → Call → Frame
flagged w flags k = frame_of_call w k.bytes k.size k.pts_ns 0 flags

-- The frames that readers are owed without a mark.
abbrev pub plain : Writer → List Call → List Frame
plain w = map (λ k. flagged w k.flags k)

-- The frames that readers are owed after a reset: the first has bit 0 of its flags set.
abbrev pub marked : Writer → List Call → List Frame
marked w [] = []
marked w (k ∷ ks) = flagged w (bit_or k.flags 1) k ∷ plain w ks

abbrev due : Bool → Writer → List Call → List Frame
due first w ks = if first then marked w ks else plain w ks

due-nil : (first : Bool) (w : Writer) → due first w [] ≡ []
due-nil true w = refl
due-nil false w = refl

due-cons :
    (first : Bool) (w : Writer) (k : Call) (ks : List Call)
    → due first w (k ∷ ks) ≡ flagged w (runtime_flags first k.flags) k ∷ due false w ks
due-cons true w k ks = refl
due-cons false w k ks = refl

deliver_all-Represents :
    (c : ChannelState) (history : List Frame) (ks : List Call)
    → c.writer.mapped ≡ true
    → c.writer.payload_size < u32_mod
    → AllGiven ks
    → length history + length ks < u64_mod
    → Represents history c.memory
    → Represents (history ++ due c.first_frame c.writer ks) (deliver_all c ks).memory
      × ((deliver_all c ks).frames_published ≡ c.frames_published + length ks)
unfolding deliver_all deliver_channel
deliver_all-Represents c history [] mapped fits given room v =
    (rw (due-nil c.first_frame c.writer, append-nil) v, omega arith)
deliver_all-Represents c history (k ∷ ks) mapped fits (g, gs) room v =
    let flags = runtime_flags c.first_frame k.flags in
    let frame = frame_of_call c.writer k.bytes k.size k.pts_ns 0 flags in
    let (written, v', _) =
      write-Represents c.writer c.memory history k.bytes k.size k.pts_ns 0 flags mapped fits g
        (omega arith) v in
    let next = deliver_channel c k.bytes k.size k.pts_ns k.flags in
    let (w, n) =
      deliver_all-Represents next (history ++ frame ∷ []) ks mapped fits gs
        (omega (arith, length-append history (frame ∷ []))) v' in
    let counted : next.frames_published ≡ c.frames_published + 1 = rw written refl in
    (
      rw
          (
            due-cons c.first_frame c.writer k ks,
            ← append_assoc history (frame ∷ []) (due false c.writer ks),
          )
          w,
      omega (arith, n, counted),
    )

-- Let a channel with a mapped writer, whose payloads are shorter than 2 ^ 32 bytes and whose ring
-- represents some history, be reset, and then get fewer than 2 ^ 64 frames, each pointing to as many
-- bytes as it says. Its ring then represents these frames, the first with `kFlagCapsChange` added to
-- its flags and the others with their own, and all of them are counted as published.
pub deliver_all-marked :
    (c : ChannelState) (before : List Frame) (ks : List Call)
    → c.writer.mapped ≡ true
    → c.writer.payload_size < u32_mod
    → AllGiven ks
    → length ks < u64_mod
    → Represents before c.memory
    → Represents (marked c.writer ks) (deliver_all (reset_channel c) ks).memory
      × ((deliver_all (reset_channel c) ks).frames_published ≡ length ks)
unfolding reset_channel
deliver_all-marked c before ks mapped fits given room v =
    let (w, n) =
      deliver_all-Represents (reset_channel c) [] ks mapped fits given (omega arith)
        (reset-Represents c.writer c.memory before mapped v).0 in
    (w, omega (arith, n))
