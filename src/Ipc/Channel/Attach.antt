-- ===== src/Ipc/Channel/Attach.antt =====
-- What `create_channel` of ipc.cpp makes, what it releases when it fails, and how a writer and
-- readers attach to it.
use insight_io.Base.{
  ◌-◌, Text, ◌||◌, if◌then◌else◌, ℕ, ◌+◌, ◌%◌, ◌≤◌, ◌≡◌, refl, ap, Bool, true, false, Option, none,
  some, List, [], ◌∷◌, ◌++◌, map, arith, ltb, ◌==◌, length-replicate, u64_mod, Error, Result, ok,
  err,
}
use mathlib.Core.List.{Perm, append-nil, perm_append_singleton}
use mathlib.Core.List.Perm
use insight_io.Ipc.Ring.{RingHeader, Memory, Writer, Reader, invalid_seq}
use insight_io.Ipc.Ring.Window.{Represents}
use insight_io.Ipc.Ring.Read.{Attached}
use insight_io.Ipc.Channel.{
  Sys, done, failed, Os, FdEvent, opened, closed, ChannelSpec, Channel, new_ring, create_channel,
  size_channel, finish_channel, open_eventfds, close, ipc_error, attach_writer, attach_reader,
  map_ring, ring_magic, ring_version, total_size_of, slot_size_of, slot_header_size,
  ring_header_size,
}
use insight_io.Ipc.Channel.Layout.{Sized, total_size-eq, slot_size-eq}

-- The descriptors that a trace opens, and those that it closes, in order.
abbrev pub openings : List FdEvent → List ℕ
openings [] = []
openings (opened fd ∷ es) = fd ∷ openings es
openings (closed fd ∷ es) = openings es

abbrev pub closings : List FdEvent → List ℕ
closings [] = []
closings (opened fd ∷ es) = closings es
closings (closed fd ∷ es) = fd ∷ closings es

-- A new ring is empty, and as large as its channel says.
pub new_ring-Represents : (spec : ChannelSpec) → Sized spec → Represents [] (new_ring spec)
unfolding new_ring
new_ring-Represents spec v = record {
  positive = v.slots;
  word = v.slots_word;
  sized = length-replicate spec.buffer_slots _;
  unwrapped = omega arith;
  counted = refl;
  window = λ i below near. absurd (omega arith);
}

-- What a failed or a successful creation owes: on failure all that was opened is closed again, on
-- success nothing is closed, and the new ring is empty.
abbrev pub Balances : Result Channel × List FdEvent → Type 0
Balances (ok c, es) = (openings es ≡ c.memfd ∷ c.reader_eventfds) × (closings es ≡ [])
Balances (err e, es) = Perm (openings es) (closings es)

pub record Settled (x : Result Channel × List FdEvent) : Type 0 where
  pub balance : Balances x

openings-append : (xs ys : List FdEvent) → openings (xs ++ ys) ≡ openings xs ++ openings ys
openings-append [] ys = refl
openings-append (opened fd ∷ xs) ys = ap (λ l. fd ∷ l) (openings-append xs ys)
openings-append (closed fd ∷ xs) ys = openings-append xs ys

closings-append : (xs ys : List FdEvent) → closings (xs ++ ys) ≡ closings xs ++ closings ys
closings-append [] ys = refl
closings-append (opened fd ∷ xs) ys = closings-append xs ys
closings-append (closed fd ∷ xs) ys = ap (λ l. fd ∷ l) (closings-append xs ys)

events_opened :
    (fds : List ℕ) → (openings (map opened fds) ≡ fds) × (closings (map opened fds) ≡ [])
events_opened [] = (refl, refl)
events_opened (fd ∷ fds) = let (o, c) = events_opened fds in (ap (λ l. fd ∷ l) o, c)

events_closed :
    (fds : List ℕ) → (openings (map closed fds) ≡ []) × (closings (map closed fds) ≡ fds)
events_closed [] = (refl, refl)
events_closed (fd ∷ fds) = let (o, c) = events_closed fds in (o, ap (λ l. fd ∷ l) c)

dropped-perm :
    (memfd : ℕ) (fds : List ℕ)
    → Perm
        (openings ((opened memfd ∷ map opened fds) ++ close memfd fds))
        (closings ((opened memfd ∷ map opened fds) ++ close memfd fds))
unfolding close
dropped-perm memfd fds =
    simp
      (
        openings-append,
        closings-append,
        (events_opened fds).0,
        (events_opened fds).1,
        (events_closed fds).0,
        (events_closed fds).1,
        append-nil,
      )
      (Perm.symm (perm_append_singleton memfd fds))

Settled-if :
    (b : Bool) (x y : Result Channel × List FdEvent)
    → Settled x
    → Settled y
    → Settled (if b then x else y)
Settled-if true x y p q = p
Settled-if false x y p q = q

Settled-Sys :
    {A : Type 0} (r : Sys A) (f : A → Result Channel × List FdEvent)
    (g : Text → Result Channel × List FdEvent)
    → ((a : A) → Settled (f a))
    → ((t : Text) → Settled (g t))
    → Settled (elim r [ done a ↦ f a | failed t ↦ g t ])
Settled-Sys (done a) f g p q = p a
Settled-Sys (failed t) f g p q = q t

finish_channel-Settled :
    (os : Os) (spec : ChannelSpec) (memfd : ℕ) → Settled (finish_channel os spec memfd)
unfolding finish_channel
finish_channel-Settled os spec memfd = record {
  balance =
      let (fds, failure) = open_eventfds os spec.reader_count 0 [] in
      elim failure
        as (λ o. Balances (elim o [
          | none ↦ (
            ok (record {
              id = spec.channel_id;
              memfd = memfd;
              shm_size = total_size_of spec;
              memory = new_ring spec;
              reader_eventfds = fds;
            }),
            opened memfd ∷ map opened fds,
          )
          | some reason ↦ (
            err (ipc_error "eventfd: " reason),
            (opened memfd ∷ map opened fds) ++ close memfd fds,
          )
        ])) [
          | none ↦ let (o, c) = events_opened fds in (ap (λ l. memfd ∷ l) o, c)
          | some reason ↦ dropped-perm memfd fds
        ];
}

refused : (memfd : ℕ) (e : Error) → Settled (err e, opened memfd ∷ close memfd [])
refused memfd e = record { balance = dropped-perm memfd [] }

refused_early : (e : Error) → Settled (err e, [])
refused_early e = record { balance = Perm.nil }

size_channel-Settled :
    (os : Os) (spec : ChannelSpec) (memfd : ℕ) → Settled (size_channel os spec memfd)
unfolding size_channel
size_channel-Settled os spec memfd =
    let total = total_size_of spec in
    Settled-if (ltb total ring_header_size || ltb total (slot_size_of spec)) _ _ (refused memfd _) (
      Settled-Sys (os.ftruncate memfd total) _ _
        (λ _.
          Settled-Sys (os.mmap memfd total) _ _ (λ _. finish_channel-Settled os spec memfd)
            (λ t. refused memfd (ipc_error "mmap: " t)))
        (λ t. refused memfd (ipc_error "ftruncate: " t)))

-- A creation that fails has closed every descriptor that it opened; one that succeeds has opened the
-- channel's descriptors and closed none.
pub create_channel-Settled : (os : Os) (spec : ChannelSpec) → Settled (create_channel os spec)
unfolding create_channel
create_channel-Settled os spec = Settled-if (spec.buffer_slots == 0) _ _ (refused_early _) (
    Settled-if (spec.max_payload_bytes == 0) _ _ (refused_early _) (
      Settled-Sys (os.memfd_create _) _ _ (size_channel-Settled os spec)
        (λ t. refused_early (ipc_error "memfd_create: " t))))

-- What a successful creation returns.
create_channel-ok :
    (os : Os) (spec : ChannelSpec) (c : Channel)
    → (create_channel os spec).0 ≡ ok c
    → (c.memory ≡ new_ring spec) × (c.shm_size ≡ total_size_of spec)
unfolding create_channel size_channel finish_channel
create_channel-ok os spec c e = ground arith

map_ring_lem :
    (os : Os) (memfd size : ℕ) (m : Memory)
    → os.fstat memfd ≡ done size
    → os.mmap memfd size ≡ done tt
    → ring_header_size ≤ size
    → m.header.magic ≡ ring_magic
    → m.header.version ≡ ring_version
    → map_ring os memfd m ≡ ok size
unfolding map_ring
map_ring_lem os memfd size m stat map large magic version = ground arith

-- Let a channel be created for a specification whose sizes fit, and let its descriptor be mapped
-- at its full size. The ring is empty; `attach_writer` succeeds with a writer for payloads of the
-- size that was asked for and the given descriptors; `attach_reader` succeeds with an attached
-- reader that has read nothing.
pub attach-Represents :
    (os : Os) (spec : ChannelSpec) (c : Channel) (eventfds : List (Option ℕ)) (eventfd : ℕ)
    → Sized spec
    → (create_channel os spec).0 ≡ ok c
    → os.fstat c.memfd ≡ done c.shm_size
    → os.mmap c.memfd c.shm_size ≡ done tt
    → Represents [] c.memory
      × ((w : Writer) × (attach_writer os (some c.memfd) c.memory eventfds ≡ ok w)
          × (w.mapped ≡ true)
          × (w.payload_size ≡ spec.max_payload_bytes)
          × (w.eventfds ≡ eventfds))
      × ((r : Reader) × (attach_reader os (some c.memfd) (some eventfd) c.memory ≡ ok r)
          × Attached r c.memory
          × (r.last_read_seq ≡ invalid_seq))
unfolding attach_writer attach_reader new_ring
attach-Represents os spec c eventfds eventfd v made sized mapped =
    let (mem, size) = create_channel-ok os spec c made in
    let header : c.memory.header ≡ (new_ring spec).header = ap (λ (m : Memory). m.header) mem in
    let magic = ap (λ (h : RingHeader). h.magic) header in
    let version = ap (λ (h : RingHeader). h.version) header in
    let slot_size = ap (λ (h : RingHeader). h.slot_size) header in
    let large : ring_header_size ≤ c.shm_size = omega (arith, size, total_size-eq spec v) in
    let ready = map_ring_lem os c.memfd c.shm_size c.memory sized mapped large magic version in
    (
      rw mem (new_ring-Represents spec v),
      (
        record {
          mapped = true;
          slot_size = c.memory.header.slot_size;
          payload_size = (c.memory.header.slot_size + u64_mod - slot_header_size) % u64_mod;
          eventfds = eventfds;
        },
        rw (ready, attach_writer) refl,
        refl,
        omega (arith, slot_size, slot_size-eq spec v, v.slot_word),
        refl,
      ),
      (
        record {
          mapped = true;
          slot_size = c.memory.header.slot_size;
          buffer_slots = c.memory.header.buffer_slots;
          last_read_seq = invalid_seq;
          eventfd = some eventfd;
        },
        rw (ready, attach_reader) refl,
        record { mapped = refl; same_slots = refl; cursor = omega arith },
        refl,
      ),
    )
