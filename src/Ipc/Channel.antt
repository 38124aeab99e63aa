-- ===== src/Ipc/Channel.antt =====
-- `create_channel`, `attach_writer`, `attach_reader` and `Channel::close` of
-- backend/src/ipc/ipc.cpp. The operating system's calls are the parameter `Os`; what they open and
-- close is a list of events.
pub mod Layout
pub mod Attach
use insight_io.Base.{
  ℕ, zero, suc, ◌+◌, ◌-◌, ◌*◌, ◌%◌, String, Bool, true, false, ◌||◌, ◌&&◌, Option, none, some, List,
  [], ◌∷◌, ◌++◌, map, ltb, ◌==◌, if◌then◌else◌, length, take, replicate, u64_mod, u32_mod, Text,
  codes, Error, Result, ok, err,
}
use insight_io.Ipc.Ring.{RingHeader, Slot, Memory, Writer, Reader, invalid_seq}

abbrev pub ring_magic : ℕ
ring_magic = 0x474E_4952

abbrev pub ring_version : ℕ
ring_version = 2

-- `sizeof(RingHeader)` and `sizeof(SlotHeader)`.
abbrev pub ring_header_size : ℕ
ring_header_size = 72

abbrev pub slot_header_size : ℕ
slot_header_size = 32

unfoldable pub slot_offset : ℕ → ℕ → ℕ
slot_offset slot_size idx = (ring_header_size + slot_size * idx) % u64_mod

-- A system call gives a value, or fails with the text of `errno`.
pub data Sys (A : Type 0) : Type 0 where
  done : A → Sys A
  failed : Text → Sys A

-- The answers of the operating system to the calls of one `create_channel` or attach: `eventfd`
-- takes the number of the call, and `fstat` gives the size of a file.
pub record Os : Type 0 where
  pub memfd_create : Text → Sys ℕ
  pub ftruncate : ℕ → ℕ → Sys (Unit {0})
  pub mmap : ℕ → ℕ → Sys (Unit {0})
  pub eventfd : ℕ → Sys ℕ
  pub fstat : ℕ → Sys ℕ

pub data FdEvent : Type 0 where
  opened closed : ℕ → FdEvent

pub record ChannelSpec : Type 0 where
  pub channel_id : Text
  pub buffer_slots : ℕ
  pub max_payload_bytes : ℕ
  pub reader_count : ℕ

pub record Channel : Type 0 where
  pub id : Text
  pub memfd : ℕ
  pub shm_size : ℕ
  pub memory : Memory
  pub reader_eventfds : List ℕ

-- `Channel::close`, which a channel's destructor calls: the readers' descriptors, then the memory's.
unfoldable pub close : ℕ → List ℕ → List FdEvent
close memfd eventfds = map closed eventfds ++ closed memfd ∷ []

abbrev pub slot_size_of : ChannelSpec → ℕ
slot_size_of spec = (slot_header_size + spec.max_payload_bytes) % u64_mod

abbrev pub total_size_of : ChannelSpec → ℕ
total_size_of spec = (ring_header_size + slot_size_of spec * spec.buffer_slots) % u64_mod

-- The pages of a new `memfd` are zero.
abbrev pub zero_slot : ℕ → Slot
zero_slot payload_bytes = record {
  seq = 0;
  pts_ns = 0;
  dts_ns = 0;
  size = 0;
  flags = 0;
  payload = replicate payload_bytes 0;
}

unfoldable pub new_ring : ChannelSpec → Memory
new_ring spec = record {
  header = record {
    magic = ring_magic;
    version = ring_version;
    buffer_slots = spec.buffer_slots;
    slot_size = slot_size_of spec % u32_mod;
    write_seq = 0;
    overflow_policy = 0;
  };
  slots = replicate spec.buffer_slots (zero_slot spec.max_payload_bytes);
}

-- The loop over `reader_count`: the descriptors so far, newest last; an error after some of them.
unfoldable pub open_eventfds : Os → ℕ → ℕ → List ℕ → List ℕ × Option Text
open_eventfds os zero index fds = (fds, none)
open_eventfds os (suc rounds) index fds = elim (os.eventfd index) [
  | done fd ↦ open_eventfds os rounds (index + 1) (fds ++ fd ∷ [])
  | failed reason ↦ (fds, some reason)
]

abbrev ipc_error : String → Text → Error
ipc_error call reason = record { code = codes "ipc_error"; message = codes call ++ reason }

abbrev invalid_ipc : String → Error
invalid_ipc why = record { code = codes "invalid_ipc"; message = codes why }

-- The part of `create_channel` after `mmap`.
unfoldable pub finish_channel : Os → ChannelSpec → ℕ → Result Channel × List FdEvent
unfolding open_eventfds close
finish_channel os spec memfd =
    let (fds, failure) = open_eventfds os spec.reader_count 0 [] in
    elim failure [
      | none ↦ (
        ok (record {
          id = spec.channel_id;
          memfd = memfd;
          shm_size = total_size_of spec;
          memory = new_ring spec;
          reader_eventfds = fds;
        }),
        opened memfd ∷ map opened fds,
      )
      | some reason ↦
          (err (ipc_error "eventfd: " reason), (opened memfd ∷ map opened fds) ++ close memfd fds)
    ]

-- The part of `create_channel` after `memfd_create`.
unfoldable pub size_channel : Os → ChannelSpec → ℕ → Result Channel × List FdEvent
unfolding finish_channel
size_channel os spec memfd =
    let total_size = total_size_of spec in
    let dropped = opened memfd ∷ close memfd [] in
    if ltb total_size ring_header_size || ltb total_size (slot_size_of spec)
    then (err (record { code = codes "ipc_error"; message = codes "invalid IPC size" }), dropped)
    else elim (os.ftruncate memfd total_size) [
      | failed reason ↦ (err (ipc_error "ftruncate: " reason), dropped)
      | done _ ↦ elim (os.mmap memfd total_size) [
        | failed reason ↦ (err (ipc_error "mmap: " reason), dropped)
        | done _ ↦ finish_channel os spec memfd
      ]
    ]

unfoldable pub create_channel : Os → ChannelSpec → Result Channel × List FdEvent
unfolding size_channel
create_channel os spec =
    if spec.buffer_slots == 0
    then (err (invalid_ipc "buffer_slots must be > 0"), [])
    else if spec.max_payload_bytes == 0
    then (err (invalid_ipc "max_payload_bytes must be > 0"), [])
    else elim (os.memfd_create (take 128 (codes "insightio-" ++ spec.channel_id))) [
      | failed reason ↦ (err (ipc_error "memfd_create: " reason), [])
      | done memfd ↦ size_channel os spec memfd
    ]

-- The checks that both attach functions make, on the memory that the descriptor maps.
unfoldable pub map_ring : Os → ℕ → Memory → Result ℕ
map_ring os memfd m = elim (os.fstat memfd) [
  | failed reason ↦ err (ipc_error "fstat: " reason)
  | done st_size ↦
      if ltb st_size ring_header_size
      then err (record { code = codes "ipc_error"; message = codes "shared memory too small" })
      else elim (os.mmap memfd st_size) [
        | failed reason ↦ err (ipc_error "mmap: " reason)
        | done _ ↦
            if m.header.magic == ring_magic && m.header.version == ring_version
            then ok st_size
            else err (record { code = codes "ipc_error"; message = codes "invalid ring header" })
      ]
]

-- `attach_writer`; a negative `memfd` is `none`, and `m` is the memory behind it.
unfoldable pub attach_writer : Os → Option ℕ → Memory → List (Option ℕ) → Result Writer
unfolding map_ring
attach_writer os none m eventfds =
    err (record { code = codes "ipc_error"; message = codes "invalid memfd" })
attach_writer os (some memfd) m eventfds = elim (map_ring os memfd m) [
  | err e ↦ err e
  | ok _ ↦ ok (record {
    mapped = true;
    slot_size = m.header.slot_size;
    payload_size = (m.header.slot_size + u64_mod - slot_header_size) % u64_mod;
    eventfds = eventfds;
  })
]

unfoldable pub attach_reader : Os → Option ℕ → Option ℕ → Memory → Result Reader
unfolding map_ring
attach_reader os none eventfd m =
    err (record { code = codes "ipc_error"; message = codes "invalid file descriptor" })
attach_reader os (some memfd) none m =
    err (record { code = codes "ipc_error"; message = codes "invalid file descriptor" })
attach_reader os (some memfd) (some eventfd) m = elim (map_ring os memfd m) [
  | err e ↦ err e
  | ok _ ↦ ok (record {
    mapped = true;
    slot_size = m.header.slot_size;
    buffer_slots = m.header.buffer_slots;
    last_read_seq = invalid_seq;
    eventfd = some eventfd;
  })
]
