-- ===== src/Ipc/Ring.antt =====
-- The shared ring of backend/src/ipc/ipc.cpp: `Writer::write`, `Writer::reset`, `Reader::read` and
-- the helpers that they call, over the mapped memory of ipc.hpp.
--
-- The mapping is a header and a list of slots; `Layout` shows that the slots of a channel lie apart
-- and inside the mapping. `pts_ns` and `dts_ns` are their 64-bit patterns, so that the casts between
-- `int64_t` and `uint64_t` are the identity. A descriptor is `none` where the code's is negative.
pub mod Window
pub mod Write
pub mod Reset
pub mod Read
pub mod Stream
pub mod Torn
use insight_io.Base.{
  ℕ, zero, suc, ◌+◌, ◌-◌, ◌%◌, ◌^◌, Bool, true, false, not, ◌&&◌, Option, none, some, List, [], ◌∷◌,
  ◌++◌, ltb, leb, ◌==◌, if◌then◌else◌, length, get_elem?, modify, take, drop, u64_mod, u32_mod,
}

abbrev pub invalid_seq : ℕ
invalid_seq = 0xFFFF_FFFF_FFFF_FFFF

pub record RingHeader : Type 0 where
  pub magic : ℕ
  pub version : ℕ
  pub buffer_slots : ℕ
  pub slot_size : ℕ
  pub write_seq : ℕ
  pub overflow_policy : ℕ

-- A `SlotHeader` and the payload bytes behind it.
pub record Slot : Type 0 where
  pub seq : ℕ
  pub pts_ns : ℕ
  pub dts_ns : ℕ
  pub size : ℕ
  pub flags : ℕ
  pub payload : List ℕ

pub record Memory : Type 0 where
  pub header : RingHeader
  pub slots : List Slot

-- `mapped` is `header_ != nullptr`.
pub record Writer : Type 0 where
  pub mapped : Bool
  pub slot_size : ℕ
  pub payload_size : ℕ
  pub eventfds : List (Option ℕ)

pub record Reader : Type 0 where
  pub mapped : Bool
  pub slot_size : ℕ
  pub buffer_slots : ℕ
  pub last_read_seq : ℕ
  pub eventfd : Option ℕ

-- `slot` is the slot that `data` points into: the bytes are not copied.
pub record FrameSpan : Type 0 where
  pub slot : ℕ
  pub size : ℕ
  pub pts_ns : ℕ
  pub dts_ns : ℕ
  pub flags : ℕ

-- The slot that holds a sequence number; both classes compute it so.
unfoldable pub slot_for_seq : Bool → ℕ → ℕ → Option ℕ
slot_for_seq mapped slots seq =
    if not mapped then none else if slots == 0 then none else some (seq % slots % u32_mod)

abbrev pub update_slot : Memory → ℕ → (Slot → Slot) → Memory
update_slot m i f = record m { slots = modify m.slots i f }

-- `memcpy` to the front of a payload. `write` cuts the bytes to the writer's payload size, which the
-- payloads of a channel's slots have, so that they do not reach into the next slot.
abbrev pub overwrite : List ℕ → List ℕ → List ℕ
overwrite bytes payload = bytes ++ drop (length bytes) payload

unfoldable pub copy_payload : Memory → ℕ → List ℕ → Memory
copy_payload m i bytes = update_slot m i (λ s. record s { payload = overwrite bytes s.payload })

unfoldable pub store_metadata : Memory → ℕ → ℕ → ℕ → ℕ → ℕ → Memory
store_metadata m i pts dts size flags =
    update_slot m i
      (λ s. record s { pts_ns = pts; dts_ns = dts; size = size % u32_mod; flags = flags })

unfoldable pub store_slot_seq : Memory → ℕ → ℕ → Memory
store_slot_seq m i seq = update_slot m i (λ s. record s { seq = seq })

unfoldable pub store_write_seq : Memory → ℕ → Memory
store_write_seq m seq = record m { header = record m.header { write_seq = (seq + 1) % u64_mod } }

-- The bytes behind the pointer `data`, `none` if it is null.
abbrev pub bytes_at : Option (List ℕ) → List ℕ
bytes_at none = []
bytes_at (some bytes) = bytes

abbrev pub is_null : Option (List ℕ) → Bool
is_null none = true
is_null (some bytes) = false

-- The descriptors that `notify_readers` writes to, in order.
unfoldable pub notify_readers : List (Option ℕ) → List ℕ
notify_readers [] = []
notify_readers (none ∷ fds) = notify_readers fds
notify_readers (some fd ∷ fds) = fd ∷ notify_readers fds

unfoldable pub write_size : Writer → ℕ → ℕ
write_size w size = if ltb w.payload_size size then w.payload_size else size

-- The stores of `write` to slot `i` and to the header, in their order: the first `n` of the bytes, the
-- metadata, and the two sequence numbers.
unfoldable pub publish_stores : ℕ → ℕ → List ℕ → ℕ → ℕ → ℕ → ℕ → List (Memory → Memory)
unfolding copy_payload store_metadata store_slot_seq store_write_seq
publish_stores i seq bytes n pts dts flags =
    (λ m. if ltb 0 n then copy_payload m i (take n bytes) else m)
    ∷ (λ m. store_metadata m i pts dts n flags)
    ∷ (λ m. store_slot_seq m i seq)
    ∷ (λ m. store_write_seq m seq)
    ∷ []

abbrev pub run_stores : List (Memory → Memory) → Memory → Memory
run_stores [] m = m
run_stores (store ∷ stores) m = run_stores stores (store m)

-- The part of `write` that touches the memory.
unfoldable pub publish_frame : Memory → ℕ → ℕ → List ℕ → ℕ → ℕ → ℕ → ℕ → Memory
unfolding publish_stores
publish_frame m i seq bytes n pts dts flags =
    run_stores (publish_stores i seq bytes n pts dts flags) m

-- The result, the memory after the call, and the descriptors that were signalled.
unfoldable pub write : Writer → Memory → Option (List ℕ) → ℕ → ℕ → ℕ → ℕ → Bool × Memory × List ℕ
write w m bytes size pts dts flags =
    let seq = m.header.write_seq in
    if not w.mapped
    then (false, m, [])
    else if is_null bytes && ltb 0 size
    then (false, m, [])
    else elim (slot_for_seq w.mapped m.header.buffer_slots seq) [
      | none ↦ (false, m, [])
      | some i ↦ (
        true,
        publish_frame m i seq (bytes_at bytes) (write_size w size) pts dts flags,
        notify_readers w.eventfds,
      )
    ]

abbrev cleared : Slot → Slot
cleared s = record s { seq = invalid_seq; pts_ns = 0; dts_ns = 0; size = 0; flags = 0 }

-- One round of the loop in `reset`.
unfoldable pub clear_slot : Writer → ℕ → Memory → Memory
unfolding slot_for_seq
clear_slot w index m = elim (slot_for_seq w.mapped m.header.buffer_slots index) [
  | none ↦ m
  | some i ↦ update_slot m i cleared
]

-- The rounds `index, index + 1, …` of that loop; `rounds` are left.
unfoldable pub clear_slots : Writer → ℕ → ℕ → Memory → Memory
unfolding clear_slot
clear_slots w zero index m = m
clear_slots w (suc rounds) index m = clear_slots w rounds (index + 1) (clear_slot w index m)

unfoldable pub reset : Writer → Memory → Memory
unfolding clear_slots
reset w m =
    if not w.mapped
    then m
    else clear_slots w m.header.buffer_slots 0
        (record m { header = record m.header { write_seq = 0 } })

-- The sequence number that `read` starts from, before it looks for an overrun.
unfoldable pub first_candidate : Reader → ℕ → ℕ
first_candidate r write_seq =
    if r.last_read_seq == invalid_seq
    then (if ltb r.buffer_slots write_seq then write_seq - r.buffer_slots else 0)
    else (r.last_read_seq + 1) % u64_mod

-- An overrun reader skips to the oldest frame that is still held.
unfoldable pub skip_overrun : Reader → ℕ → ℕ → ℕ
skip_overrun r write_seq next =
    if ltb r.buffer_slots (write_seq - next) then write_seq - r.buffer_slots else next

-- The tail of `read`: the slot of `seq`, if it still holds `seq`. A slot out of range does not occur
-- in a channel's ring.
unfoldable pub read_slot : Reader → Memory → ℕ → Option FrameSpan × Reader
unfolding slot_for_seq
read_slot r m seq = elim (slot_for_seq r.mapped r.buffer_slots seq) [
  | none ↦ (none, r)
  | some i ↦ elim (get_elem? m.slots i) [
    | none ↦ (none, r)
    | some s ↦
        if s.seq == seq
        then (
          some (record {
            slot = i;
            size = s.size;
            pts_ns = s.pts_ns;
            dts_ns = s.dts_ns;
            flags = s.flags;
          }),
          record r { last_read_seq = seq },
        )
        else (none, r)
  ]
]

unfoldable pub read : Reader → Memory → Option FrameSpan × Reader
unfolding first_candidate skip_overrun read_slot
read r m =
    let write_seq = m.header.write_seq in
    let next = first_candidate r write_seq in
    if not r.mapped
    then (none, r)
    else if write_seq == 0
    then (none, r)
    else if leb write_seq next
    then (none, r)
    else read_slot r m (skip_overrun r write_seq next)

-- A delivered frame, as the client sees it through the span.
pub record Frame : Type 0 where
  pub bytes : List ℕ
  pub pts_ns : ℕ
  pub dts_ns : ℕ
  pub flags : ℕ

abbrev pub slot_frame : Slot → Frame
slot_frame s = record {
  bytes = take s.size s.payload;
  pts_ns = s.pts_ns;
  dts_ns = s.dts_ns;
  flags = s.flags;
}

-- What a span shows, when its bytes are looked at in memory `m`.
unfoldable pub span_frame : Memory → FrameSpan → Option Frame
span_frame m span = elim (get_elem? m.slots span.slot) [
  | none ↦ none
  | some s ↦ some (record {
    bytes = take span.size s.payload;
    pts_ns = span.pts_ns;
    dts_ns = span.dts_ns;
    flags = span.flags;
  })
]

-- The outcome of a read, as the client sees it.
abbrev pub delivered : Memory → Option FrameSpan → Option Frame
delivered m none = none
delivered m (some span) = span_frame m span

-- The arguments of one call of `write`.
pub record Call : Type 0 where
  pub bytes : Option (List ℕ)
  pub size : ℕ
  pub pts_ns : ℕ
  pub dts_ns : ℕ
  pub flags : ℕ

-- A writer's calls in order.
unfoldable pub write_all : Writer → Memory → List Call → Memory
write_all w m [] = m
write_all w m (c ∷ cs) = write_all w (write w m c.bytes c.size c.pts_ns c.dts_ns c.flags).1 cs

-- A client's reads in a row, until one delivers nothing; at most `rounds`.
unfoldable pub read_all : ℕ → Reader → Memory → List Frame
read_all zero r m = []
read_all (suc rounds) r m =
    let rest = read_all rounds (read r m).1 m in
    elim (delivered m (read r m).0) [ none ↦ [] | some f ↦ f ∷ rest ]

-- `Writer::add_reader_eventfd`: the descriptor is duplicated (`dup` gives the copy, if there is one)
-- and the copy is kept. The result is the copy, `none` for -1.
unfoldable pub add_reader_eventfd : Writer → Option ℕ → Option ℕ → Writer × Option ℕ
add_reader_eventfd w none dup = (w, none)
add_reader_eventfd w (some fd) none = (w, none)
add_reader_eventfd w (some fd) (some copy) =
    (record w { eventfds = w.eventfds ++ some copy ∷ [] }, some copy)

-- The first entry equal to `fd` goes; the flag says whether there was one.
unfoldable pub drop_eventfd : ℕ → List (Option ℕ) → List (Option ℕ) × Bool
drop_eventfd fd [] = ([], false)
drop_eventfd fd (none ∷ fds) = let (rest, found) = drop_eventfd fd fds in (none ∷ rest, found)
drop_eventfd fd (some g ∷ fds) =
    let (rest, found) = drop_eventfd fd fds in
    if g == fd then (fds, true) else (some g ∷ rest, found)

-- The result is true if the descriptor was there; it is closed then.
unfoldable pub remove_reader_eventfd : Writer → ℕ → Writer × Bool
unfolding drop_eventfd
remove_reader_eventfd w fd =
    let (eventfds, found) = drop_eventfd fd w.eventfds in (record w { eventfds = eventfds }, found)
