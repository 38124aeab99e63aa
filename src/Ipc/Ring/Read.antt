-- ===== src/Ipc/Ring/Read.antt =====
-- `Reader::read` of ipc.cpp against the history of written frames.
use mathlib.Core.Option.{some-injective}
use insight_io.Base.{
  ℕ, ◌+◌, ◌-◌, ◌%◌, ◌≤◌, ◌<◌, ◌≡◌, refl, sym, ap, ◌∙◌, inl, inr, true, none, some, List, arith, ltb,
  ◌==◌, if◌then◌else◌, length, get_elem?, u64_mod, u32_mod, Bool-cases, Option-cases,
  get_elem?-below, max, get_elem?-beyond,
}
use insight_io.Ipc.Ring.{
  Slot, Memory, Reader, Frame, slot_frame, invalid_seq, slot_for_seq, first_candidate, skip_overrun,
  read_slot, read, span_frame, delivered,
}
use insight_io.Ipc.Ring.Window.{Represents, held, slot_for_seq_lem}

-- The index of the frame that comes next for a reader: the one behind its last, or the oldest that
-- a ring of `n` slots still holds of `count` frames, whichever is newer.
abbrev pub next_index : Reader → ℕ → ℕ
next_index r count =
    if r.last_read_seq == invalid_seq
    then count - r.buffer_slots
    else max (r.last_read_seq + 1) (count - r.buffer_slots)

-- The reader is attached to this ring, and its cursor is a 64-bit word.
pub record Attached (r : Reader) (m : Memory) : Type 0 where
  pub mapped : r.mapped ≡ true
  pub same_slots : r.buffer_slots ≡ m.header.buffer_slots
  pub cursor : r.last_read_seq ≤ invalid_seq

pub read_lem :
    (r : Reader) (m : Memory) (count : ℕ)
    → Attached r m
    → m.header.write_seq ≡ count
    → count < u64_mod
    → read r m
      ≡ (if ltb (next_index r count) count then read_slot r m (next_index r count) else (none, r))
unfolding read first_candidate skip_overrun
read_lem r m count a e bound = ground arith

-- A slot that holds the wanted frame is delivered as it stands.
pub read_slot_lem :
    (r : Reader) (m : Memory) (seq i : ℕ) (s : Slot)
    → slot_for_seq r.mapped r.buffer_slots seq ≡ some i
    → get_elem? m.slots i ≡ some s
    → s.seq ≡ seq
    → ((read_slot r m seq).1 ≡ record r { last_read_seq = seq })
      × (delivered m (read_slot r m seq).0 ≡ some (slot_frame s))
unfolding read_slot span_frame
read_slot_lem r m seq i s found at same = rw (found, read_slot) (ground arith)

-- A read of a memory whose slot for the next frame holds that frame's number.
pub read_at :
    (r : Reader) (m : Memory) (count i : ℕ) (s : Slot)
    → Attached r m
    → m.header.write_seq ≡ count
    → count < u64_mod
    → 0 < m.header.buffer_slots
    → m.header.buffer_slots < u32_mod
    → next_index r count ≡ i
    → i < count
    → get_elem? m.slots (i % m.header.buffer_slots) ≡ some s
    → s.seq ≡ i
    → delivered m (read r m).0 ≡ some (slot_frame s)
read_at r m count i s a counted bound positive word next below found same =
    let more : ltb (next_index r count) count ≡ true = ground arith in
    rw (read_lem r m count a counted bound, more, next)
      (read_slot_lem r m i _ s
        (rw (a.mapped, a.same_slots) (slot_for_seq_lem m.header.buffer_slots i positive word)) found
        same).1

module _ (r : Reader) (m : Memory) (history : List Frame) (a : Attached r m)
    (v : Represents history m) where
  read_slot-next :
      (i : ℕ)
      → i < length history
      → length history ≤ i + m.header.buffer_slots
      → ((read_slot r m i).1 ≡ record r { last_read_seq = i })
        × (delivered m (read_slot r m i).0 ≡ get_elem? history i)
  read_slot-next i below near =
      let (f, e) = get_elem?-below history i below in
      let w = v.window i below near in
      elim (Option-cases (get_elem? m.slots (i % m.header.buffer_slots))) [
        | inl missing ↦ absurd (cc (w, e, missing))
        | inr (s, found) ↦
            let same : held s ≡ (i, f) = some-injective _ _ (cc (w, e, found)) in
            let (cursor, shown) =
              read_slot_lem r m i (i % m.header.buffer_slots) s
                (rw (a.mapped, a.same_slots)
                  (slot_for_seq_lem m.header.buffer_slots i v.positive v.word))
                found (ap (λ (p : ℕ × Frame). p.0) same) in
            (cursor, shown ∙ ap some (ap (λ (p : ℕ × Frame). p.1) same) ∙ sym e)
      ]

  pub next_index-near : length history ≤ next_index r (length history) + m.header.buffer_slots
  next_index-near = ground (arith, a.same_slots)

  -- For a reader that is attached to a ring that represents a history: a read delivers the next
  -- frame of the history, whole, and moves the cursor to it; where no frame comes next it delivers
  -- nothing and leaves the reader as it was.
  pub read-next :
      let next = next_index r (length history) in
      (delivered m (read r m).0 ≡ get_elem? history next)
      × ((read r m).1
          ≡ (if ltb next (length history) then record r { last_read_seq = next } else r))
  read-next = elim (Bool-cases (ltb (next_index r (length history)) (length history))) [
    | inl more ↦
        let (cursor, shown) = read_slot-next _ (ground arith) next_index-near in
        rw (read_lem r m (length history) a v.counted v.unwrapped, more) (shown, cursor)
    | inr over ↦
        rw (read_lem r m (length history) a v.counted v.unwrapped, over)
          (sym (get_elem?-beyond history _ (ground arith)), refl)
  ]
