-- ===== src/Examples.antt =====
-- Runs of the theorems on small inputs: a ring of two slots, a session of one stream.
mod Values
mod Catalog
mod Plans
mod Direct
use insight_io.Base.{
  ℕ, ◌+◌, ◌%◌, ◌≤◌, ◌≡◌, refl, ◌⊎◌, true, false, not, none, some, List, [], ◌∷◌, map, arith, ltb,
  if◌then◌else◌, min, take, Text, codes, is_empty, length, get_elem?, drop, text_eq, ok,
}
use insight_io.Base.Map.{lookup}
use insight_io.Types.{
  is_audio_format, ResolvedCaps, DeviceInfo, v4l2, public_device_id_base, is_audio, one_of,
}
use insight_io.Types.Slug.{slugify, segments, normalize_stream_public_name}
use insight_io.Types.Slug.Laws.{
  slug_of, slugify-eq, IsSlug, slugify-IsSlug, slugify-slugify, slugify-empty, has_alnum,
}
use insight_io.Types.Slug.Segments.{all_named, join, AllPlain, normalize-join, normalize-normalize}
use insight_io.Types.Names.{public_device_id_base-IsSlug}
use insight_io.Ipc.Ring.{
  Memory, Writer, Reader, Call, Frame, invalid_seq, write, read, reset, write_all, read_all,
  delivered, copy_payload, notify_readers, clear_slots, clear_slot, slot_for_seq, publish_stores,
  run_stores, publish_frame, store_metadata, store_slot_seq, store_write_seq, write_size,
}
use insight_io.Ipc.Ring.Window.{Represents}
use insight_io.Ipc.Ring.Write.{frame_of_call, is_open, keep, write-Represents}
use insight_io.Ipc.Ring.Reset.{reset-Represents}
use insight_io.Ipc.Ring.Read.{Attached, next_index, read-next}
use insight_io.Ipc.Ring.Stream.{
  frame_of, AllGiven, write_all-Represents, read_all-drop, read_all-write_all, read-reset,
}
use insight_io.Ipc.Ring.Torn.{read-publish_stores}
use insight_io.Ipc.Channel.{
  Os, done, ChannelSpec, Channel, new_ring, create_channel, size_channel, finish_channel,
  open_eventfds, attach_writer, attach_reader, slot_offset, slot_size_of, total_size_of,
  ring_header_size,
}
use insight_io.Ipc.Channel.Layout.{Sized, slot_offset_bounds}
use insight_io.Ipc.Channel.Attach.{
  new_ring-Represents, Settled, create_channel-Settled, attach-Represents,
}
use insight_io.Rtsp.{
  input_args_for_caps, output_args_for_caps, is_passthrough_video, audio_input_args, raw_input_args,
  RtspPublicationPlan, build_rtsp_publication_plan,
}
use insight_io.Rtsp.Plan.{is_some, publishable, plan-publishable, plan_promise}
use insight_io.Ipc.Ring.{add_reader_eventfd}
use insight_io.Runtime.State.{
  ChannelState, ActiveConnection, ready, Session, System, Answers, Registry, Entry, empty_registry,
  blank_entry,
}
use insight_io.Runtime.Publication.{reconcile, has_ipc_consumers}
use insight_io.Runtime.Publication.Reconcile.{Reconciled, reconcile-Reconciled}
use insight_io.Runtime.Clients.{
  Grants, attach_ipc_consumer, join_channel, start_for_reader, choose_channel, lease_channel,
}
use insight_io.Runtime.Clients.Joined.{attach_ipc_consumer-used}
use insight_io.Runtime.Publication.{reset_channel}
use insight_io.Runtime.Frames.Marked.{deliver_all, marked, deliver_all-marked}
use insight_io.Runtime.Views.{ServingRuntimeView, view_for_session}
use insight_io.Runtime.Views.Shown.{is_listed, view_for_session-shown}
use insight_io.Base.Map.{insert}
use insight_io.Runtime.Realize.{realize_runtime, realize_channels, realize_channel, name_channel}
use insight_io.Ipc.Channel.{map_ring}
use insight_io.Runtime.Sessions.{attach_entry, join_entry, attach, detach}
use insight_io.Runtime.Sessions.Consistent.{Consistent}
use insight_io.Runtime.Sessions.Leave.{detach-sessions}
use insight_io.Runtime.Sessions.Served.{start, attached, detached, Reachable-Consistent}

abbrev two_slots : ChannelSpec
two_slots = record {
  channel_id = codes "stream:1:main";
  buffer_slots = 2;
  max_payload_bytes = 4;
  reader_count = 0;
}

two_slots-Sized : Sized two_slots
two_slots-Sized = record {
  slots = omega arith;
  slots_word = omega arith;
  bytes = omega arith;
  slot_word = omega arith;
}

abbrev ring : Memory
ring = new_ring two_slots

ring-Represents : Represents [] ring
ring-Represents = new_ring-Represents two_slots two_slots-Sized

abbrev writer : Writer
writer = record { mapped = true; slot_size = 36; payload_size = 4; eventfds = some 9 ∷ none ∷ [] }

abbrev reader : Reader
reader = record {
  mapped = true;
  slot_size = 36;
  buffer_slots = 2;
  last_read_seq = invalid_seq;
  eventfd = some 9;
}

abbrev call : List ℕ → ℕ → Call
call bytes pts = record {
  bytes = some bytes;
  size = length bytes;
  pts_ns = pts;
  dts_ns = pts;
  flags = 0;
}

abbrev calls : List Call
calls = call (1 ∷ 2 ∷ []) 10 ∷ call (3 ∷ []) 20 ∷ call (4 ∷ 5 ∷ 6 ∷ []) 30 ∷ []

calls-AllGiven : AllGiven calls
calls-AllGiven = (omega arith, (omega arith, (omega arith, tt)))

abbrev written : Memory
written = write_all writer (reset writer ring) calls

written-slots : written.header.buffer_slots ≡ 2
unfolding write_all write reset clear_slots clear_slot slot_for_seq publish_frame store_metadata
    store_slot_seq store_write_seq copy_payload new_ring write_size
written-slots = refl

written-Attached : Attached reader written
unfolding write_all write reset clear_slots clear_slot slot_for_seq publish_frame store_metadata
    store_slot_seq store_write_seq copy_payload new_ring write_size
written-Attached = record { mapped = refl; same_slots = refl; cursor = omega arith }

read_all-write_all_example : read_all 3 reader written ≡ drop 1 (map (frame_of writer) calls)
read_all-write_all_example =
    read_all-write_all writer ring [] calls reader refl (omega arith) calls-AllGiven (omega arith)
      ring-Represents written-Attached refl

abbrev pub os : Os
os = record {
  memfd_create = λ _. done 3;
  ftruncate = λ _ _. done tt;
  mmap = λ _ _. done tt;
  eventfd = λ n. done n;
  fstat = λ _. done 144;
}

abbrev pub system : System
system = record { os = os; dup = λ _. done 4 }

abbrev pub answers : Answers
answers = record {
  publisher_start = none;
  worker_start = none;
  worker_survives = true;
  frames = λ _.
      (record { bytes = some (7 ∷ []); size = 1; pts_ns = 30; dts_ns = 0; flags = 0 }, true) ∷ [];
}

abbrev session : Session
session = record {
  session_id = 7;
  rtsp_enabled = true;
  source = record { stream_id = 1; public_name = codes "cam"; stream_public_name = codes "main" };
  plan = ok (record {
    channels =
        record {
          stream_name = codes "main";
          route_name = [];
          selector = [];
          media_kind = codes "video";
          delivered_caps = record {
            index = 0;
            format = codes "h264";
            width = 640;
            height = 480;
            fps = 30;
          };
          max_payload_bytes = 4;
        }
        ∷ [];
    worker = none;
  });
}

abbrev history : List Frame
history = map (frame_of writer) calls

written-Represents : Represents history written
written-Represents =
    write_all-Represents writer (reset writer ring) [] calls refl (omega arith) calls-AllGiven
      (omega arith) (reset-Represents writer ring [] refl ring-Represents).0

Reachable-Consistent_example : Consistent true (
    detach (codes "host") answers 7 (attach (codes "host") system answers session empty_registry).0)
Reachable-Consistent_example =
    Reachable-Consistent true
      (detach (codes "host") answers 7
        (attach (codes "host") system answers session empty_registry).0)
      (detached true (codes "host") answers 7
        (attach (codes "host") system answers session empty_registry).0
        (attached true (codes "host") system answers session empty_registry start))

write-Represents_example :
    ((write writer ring (some (1 ∷ 2 ∷ 3 ∷ 4 ∷ 5 ∷ [])) 5 10 11 1).0 ≡ true)
    × Represents
        (frame_of_call writer (some (1 ∷ 2 ∷ 3 ∷ 4 ∷ 5 ∷ [])) 5 10 11 1 ∷ [])
        (write writer ring (some (1 ∷ 2 ∷ 3 ∷ 4 ∷ 5 ∷ [])) 5 10 11 1).1
    × (map (λ fd. some fd) (write writer ring (some (1 ∷ 2 ∷ 3 ∷ 4 ∷ 5 ∷ [])) 5 10 11 1).2
        ≡ keep is_open writer.eventfds)
write-Represents_example =
    write-Represents writer ring [] (some (1 ∷ 2 ∷ 3 ∷ 4 ∷ 5 ∷ [])) 5 10 11 1 refl (omega arith)
      (omega arith) (omega arith) ring-Represents

read-next_example :
    (delivered written (read reader written).0
      ≡ get_elem? history (next_index reader (length history)))
    × ((read reader written).1 ≡ (
        if ltb (next_index reader (length history)) (length history)
        then record reader { last_read_seq = next_index reader (length history) }
        else reader))
read-next_example = read-next reader written history written-Attached written-Represents

abbrev oldest : Frame
oldest = record { bytes = 3 ∷ []; pts_ns = 20; dts_ns = 20; flags = 0 }

read-publish_stores_example :
    let stores =
      publish_stores
        (length history % written.header.buffer_slots)
        (length history)
        (7 ∷ [])
        (min writer.payload_size 1)
        40
        40
        0 in
    let torn = run_stores (take 1 stores) written in
    ((write writer written (some (7 ∷ [])) 1 40 40 0).1 ≡ run_stores stores written)
    × (delivered torn (read reader torn).0
        ≡ some (record oldest { bytes = take (min writer.payload_size 1) (7 ∷ []) }))
unfolding write_all write reset clear_slots clear_slot slot_for_seq publish_frame publish_stores
    store_metadata store_slot_seq store_write_seq copy_payload new_ring write_size
read-publish_stores_example =
    read-publish_stores writer reader written history oldest (7 ∷ []) 1 40 40 0 refl (omega arith)
      (omega arith) written-Attached written-Represents (omega arith) refl refl refl

abbrev stale : Reader
stale = record reader { last_read_seq = 5 }

stale-Attached : Attached stale written
stale-Attached = record {
  mapped = refl;
  same_slots = written-Attached.same_slots;
  cursor = omega arith;
}

read-reset_example :
    (delivered written (read stale written).0 ≡ none) × ((read stale written).1 ≡ stale)
read-reset_example =
    read-reset writer ring [] calls stale refl (omega arith) calls-AllGiven ring-Represents
      stale-Attached (omega arith) (omega arith)

read_all-drop_example :
    read_all 2 reader written ≡ drop (next_index reader (length history)) history
read_all-drop_example =
    read_all-drop 2 reader written history written-Attached written-Represents (omega arith)

slot_offset_bounds_example :
    (ring_header_size ≤ slot_offset (slot_size_of two_slots) 0)
    × (slot_offset (slot_size_of two_slots) 0 + slot_size_of two_slots
        ≤ slot_offset (slot_size_of two_slots) 1)
    × (slot_offset (slot_size_of two_slots) 1 + slot_size_of two_slots ≤ total_size_of two_slots)
slot_offset_bounds_example =
    slot_offset_bounds two_slots two_slots-Sized 0 1 (omega arith) (omega arith)

create_channel-Settled_example : Settled (create_channel os two_slots)
create_channel-Settled_example = create_channel-Settled os two_slots

abbrev channel : Channel
channel = record {
  id = codes "stream:1:main";
  memfd = 3;
  shm_size = 144;
  memory = ring;
  reader_eventfds = [];
}

attach-Represents_example :
    Represents [] channel.memory
    × ((w : Writer) × (attach_writer os (some 3) channel.memory (some 9 ∷ []) ≡ ok w)
        × (w.mapped ≡ true)
        × (w.payload_size ≡ 4)
        × (w.eventfds ≡ some 9 ∷ []))
    × ((r : Reader) × (attach_reader os (some 3) (some 9) channel.memory ≡ ok r)
        × Attached r channel.memory
        × (r.last_read_seq ≡ invalid_seq))
unfolding create_channel size_channel finish_channel open_eventfds new_ring
attach-Represents_example =
    attach-Represents os two_slots channel (some 9 ∷ []) 9 two_slots-Sized refl refl refl

slugify-eq_example : slugify (codes "USB Cam (2)") ≡ slug_of (codes "USB Cam (2)")
slugify-eq_example = slugify-eq (codes "USB Cam (2)")

slugify-IsSlug_example : (slugify (codes "--A") ≡ []) ⊎ IsSlug (slugify (codes "--A"))
slugify-IsSlug_example = slugify-IsSlug (codes "--A")

slugify-slugify_example : slugify (slugify (codes "Web  Cam!")) ≡ slugify (codes "Web  Cam!")
slugify-slugify_example = slugify-slugify (codes "Web  Cam!")

slugify-empty_example : is_empty (slugify (codes "?!")) ≡ not (has_alnum (codes "?!"))
slugify-empty_example = slugify-empty (codes "?!")

normalize-join_example :
    (parts : List Text) × AllPlain parts
    × (join parts ≡ codes "Main View/720p")
    × (normalize_stream_public_name (codes "Main View/720p")
        ≡ (if all_named parts then join (map slugify parts) else []))
normalize-join_example = normalize-join (codes "Main View/720p")

normalize-normalize_example :
    normalize_stream_public_name (normalize_stream_public_name (codes "A/B c"))
    ≡ normalize_stream_public_name (codes "A/B c")
normalize-normalize_example = normalize-normalize (codes "A/B c")

abbrev device : DeviceInfo
device = record {
  uri = codes "v4l2:/dev/video0";
  kind = v4l2;
  name = codes "C920: Video";
  streams = [];
  identity = record {
    device_uri = [];
    device_id = [];
    kind_str = [];
    hardware_name = [];
    persistent_key = [];
    usb_vendor_id = [];
    usb_product_id = [];
    usb_serial = [];
  };
  description = [];
}

public_device_id_base-IsSlug_example : IsSlug (public_device_id_base device 1)
public_device_id_base-IsSlug_example = public_device_id_base-IsSlug device 1

abbrev caps : ResolvedCaps
caps = record { index = 0; format = codes "h264"; width = 640; height = 480; fps = 30 }

plan-publishable_example : is_some (build_rtsp_publication_plan caps) ≡ publishable caps
plan-publishable_example = plan-publishable caps

abbrev copied_plan : RtspPublicationPlan
copied_plan = record {
  promised_format = codes "h264";
  actual_format = codes "h264";
  input_args = codes "-f" ∷ codes "h264" ∷ codes "-i" ∷ codes "pipe:0" ∷ [];
  output_args = codes "-an" ∷ codes "-c:v" ∷ codes "copy" ∷ [];
}

plan_promise_example :
    (copied_plan.actual_format ≡ caps.format)
    × (if is_audio caps
        then text_eq copied_plan.promised_format (codes "aac")
        else one_of copied_plan.promised_format (codes "h264" ∷ codes "h265" ∷ []))
      ≡ true
unfolding build_rtsp_publication_plan input_args_for_caps output_args_for_caps is_audio
    is_audio_format one_of text_eq is_passthrough_video audio_input_args raw_input_args
plan_promise_example = plan_promise caps copied_plan refl

detach-sessions_example :
    lookup 7
      (detach
        (codes "host")
        answers
        7
        (attach (codes "host") system answers session empty_registry).0).session_to_stream
    ≡ none
detach-sessions_example =
    detach-sessions (codes "host") answers 7
      (attach (codes "host") system answers session empty_registry).0

abbrev shown : ChannelState
shown = record {
  number = 0;
  channel_id = codes "stream:1:main";
  stream_name = codes "main";
  route_name = [];
  selector = [];
  media_kind = codes "video";
  delivered_caps = caps;
  writer = writer;
  memory = ring;
  frames_published = 0;
  attached_consumers = 0;
  first_frame = true;
}

abbrev wanting : Entry
wanting = record blank_entry {
  consumer_rtsp = (7, true) ∷ [];
  owner_session_id = 7;
  channels = shown ∷ [];
  worker = some false;
}

reconcile-Reconciled_example : Reconciled answers wanting (reconcile (codes "host") answers wanting)
reconcile-Reconciled_example = reconcile-Reconciled (codes "host") answers wanting

abbrev serving : Registry
serving = record empty_registry {
  entries =
      (
        1,
        record blank_entry {
          state = ready;
          worker = some true;
          channels = shown ∷ [];
          consumer_rtsp = (7, false) ∷ [];
          owner_session_id = 7;
        },
      )
      ∷ [];
  session_to_stream = (7, 1) ∷ [];
}

abbrev grants : Grants
grants = record { eventfd = some 10; dup = some 11; epoll_open = true; epoll_add = true }

abbrev connection : ActiveConnection
connection = record {
  session_id = 7;
  channel = 0;
  leased_eventfd = some 10;
  writer_eventfd = 11;
  client_fd = none;
}

attach_ipc_consumer-used_example :
    (st : ℕ) × (e : Entry) × (lookup 7 serving.session_to_stream ≡ some st)
    × (lookup st (attach_ipc_consumer answers grants 7 [] serving).0.entries ≡ some e)
    × (has_ipc_consumers e ≡ true)
unfolding attach_ipc_consumer join_channel start_for_reader choose_channel lease_channel
    add_reader_eventfd lookup
attach_ipc_consumer-used_example =
    attach_ipc_consumer-used answers grants 7 [] serving connection refl

deliver_all-marked_example :
    Represents (marked writer calls) (deliver_all (reset_channel shown) calls).memory
    × ((deliver_all (reset_channel shown) calls).frames_published ≡ 3)
deliver_all-marked_example =
    deliver_all-marked shown [] calls refl (omega arith) calls-AllGiven (omega arith)
      ring-Represents

session-stream :
    lookup 7 (attach (codes "host") system answers session empty_registry).0.session_to_stream
    ≡ some 1
unfolding attach attach_entry join_entry lookup insert realize_runtime realize_channels
    realize_channel name_channel create_channel size_channel finish_channel open_eventfds
    attach_writer map_ring new_ring
session-stream = refl

view_for_session-shown_example :
    (v : ServingRuntimeView) × (view_for_session
        (codes "/run/ipc.sock")
        []
        7
        (attach (codes "host") system answers session empty_registry).0
      ≡ some v)
    × (is_listed 7 v.consumer_session_ids ≡ true)
    × (is_listed v.owner_session_id v.consumer_session_ids ≡ true)
    × (is_some v.rtsp_publication ≡ v.rtsp_enabled)
view_for_session-shown_example =
    view_for_session-shown (codes "/run/ipc.sock") [] 7 1
      (attach (codes "host") system answers session empty_registry).0
      (Reachable-Consistent true (attach (codes "host") system answers session empty_registry).0
        (attached true (codes "host") system answers session empty_registry start))
      session-stream
