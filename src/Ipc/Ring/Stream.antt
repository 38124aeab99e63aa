-- ===== src/Ipc/Ring/Stream.antt =====
-- Whole runs over the ring of ipc.cpp: writes from a reset on, and a client that reads.
use insight_io.Base.{
  ℕ, zero, suc, ◌+◌, ◌-◌, ◌≤◌, ◌<◌, ◌≡◌, sym, ap, ◌∙◌, true, none, List, [], ◌∷◌, ◌++◌, map, arith,
  length, drop, u64_mod, u32_mod, get_elem?-below, get_elem?-beyond, drop-cons, drop-beyond,
  length-append, length-map,
}
use native.Mathlib.Decide.{dec_lt}
use mathlib.Core.List.{append_assoc, append-nil}
use insight_io.Ipc.Ring.{
  Memory, Writer, Reader, Frame, Call, invalid_seq, bytes_at, write, read, reset, write_all,
  read_all, delivered,
}
use insight_io.Ipc.Ring.Window.{Represents}
use insight_io.Ipc.Ring.Write.{frame_of_call, write-Represents}
use insight_io.Ipc.Ring.Reset.{reset-Represents}
use insight_io.Ipc.Ring.Read.{Attached, next_index, read-next}

abbrev pub frame_of : Writer → Call → Frame
frame_of w c = frame_of_call w c.bytes c.size c.pts_ns c.dts_ns c.flags

-- Every call points to as many bytes as it says.
abbrev pub AllGiven : List Call → Type 0
AllGiven [] = Unit {0}
AllGiven (c ∷ cs) = (c.size ≤ length (bytes_at c.bytes)) × AllGiven cs

pub write_all-Represents :
    (w : Writer) (m : Memory) (history : List Frame) (cs : List Call)
    → w.mapped ≡ true
    → w.payload_size < u32_mod
    → AllGiven cs
    → length history + length cs < u64_mod
    → Represents history m
    → Represents (history ++ map (frame_of w) cs) (write_all w m cs)
unfolding write_all
write_all-Represents w m history [] mapped fits given room v = rw append-nil v
write_all-Represents w m history (c ∷ cs) mapped fits (g, gs) room v =
    let (_, v', _) =
      write-Represents w m history c.bytes c.size c.pts_ns c.dts_ns c.flags mapped fits g
        (omega arith) v in
    rw (← append_assoc history (frame_of w c ∷ []) (map (frame_of w) cs)) (
      write_all-Represents w (write w m c.bytes c.size c.pts_ns c.dts_ns c.flags).1
        (history ++ frame_of w c ∷ []) cs mapped fits gs
        (omega (arith, length-append history (frame_of w c ∷ []))) v')

next_index-suc :
    (r : Reader) (count : ℕ)
    → next_index r count < count
    → count < u64_mod
    → next_index (record r { last_read_seq = next_index r count }) count ≡ suc (next_index r count)
next_index-suc r count more bound = ground arith

-- For a reader that is attached to a ring that represents a history: enough reads in a row deliver
-- all that the history has from the reader's next frame on, in order.
pub read_all-drop :
    (rounds : ℕ) (r : Reader) (m : Memory) (history : List Frame)
    → Attached r m
    → Represents history m
    → length history ≤ rounds + next_index r (length history)
    → read_all rounds r m ≡ drop (next_index r (length history)) history
unfolding read_all
read_all-drop zero r m history a v enough = sym (drop-beyond history _ (omega arith))
read_all-drop (suc rounds) r m history a v enough =
    let next = next_index r (length history) in
    let (shown, cursor) = read-next r m history a v in
    elim (dec_lt next (length history)) [
      | yes more ↦
          let (f, e) = get_elem?-below history next more in
          let moved : (read r m).1 ≡ record r { last_read_seq = next } = cursor ∙ ground arith in
          rw (shown ∙ e, read_all, moved)
            (ap (λ l. f ∷ l)
                (read_all-drop rounds (record r { last_read_seq = next }) m history
                    (advanced next more) v
                    (omega (arith, next_index-suc r (length history) more v.unwrapped))
                  ∙ ap (λ k. drop k history) (next_index-suc r (length history) more v.unwrapped))
              ∙ sym (drop-cons history next f e))
      | no over ↦
          rw (shown ∙ get_elem?-beyond history next (omega arith), read_all)
            (sym (drop-beyond history next (omega arith)))
    ]
  where
    advanced : (next : ℕ) → next < length history → Attached (record r { last_read_seq = next }) m
    advanced next more = record {
      mapped = a.mapped;
      same_slots = a.same_slots;
      cursor = omega (arith, v.unwrapped);
    }

-- Let a mapped writer, whose payloads are shorter than 2 ^ 32 bytes, reset a ring that represents
-- some history, and then make fewer than 2 ^ 64 writes, each pointing to as many bytes as it says.
-- A reader that is attached then and has read nothing gets exactly the last `buffer_slots` frames,
-- oldest first, in as many reads as there were writes.
pub read_all-write_all :
    (w : Writer) (m : Memory) (before : List Frame) (cs : List Call) (r : Reader)
    → w.mapped ≡ true
    → w.payload_size < u32_mod
    → AllGiven cs
    → length cs < u64_mod
    → Represents before m
    → Attached r (write_all w (reset w m) cs)
    → r.last_read_seq ≡ invalid_seq
    → read_all (length cs) r (write_all w (reset w m) cs)
      ≡ drop (length cs - r.buffer_slots) (map (frame_of w) cs)
read_all-write_all w m before cs r mapped fits given room v a fresh =
    let h =
      write_all-Represents w (reset w m) [] cs mapped fits given (omega arith)
        (reset-Represents w m before mapped v).0 in
    let n = length-map (frame_of w) cs in
    let start : next_index r (length (map (frame_of w) cs)) ≡ length cs - r.buffer_slots =
      ground (arith, n) in
    read_all-drop (length cs) r _ (map (frame_of w) cs) a h (omega (arith, n))
    ∙ ap (λ k. drop k (map (frame_of w) cs)) start

-- Let a mapped writer, whose payloads are shorter than 2 ^ 32 bytes, reset a ring that represents
-- some history, and then write frames, each pointing to as many bytes as it says. A reader that is
-- still attached, and had read a frame of a number at least that of the newest frame now, gets
-- nothing and stays as it is.
pub read-reset :
    (w : Writer) (m : Memory) (before : List Frame) (cs : List Call) (r : Reader)
    → w.mapped ≡ true
    → w.payload_size < u32_mod
    → AllGiven cs
    → Represents before m
    → Attached r (write_all w (reset w m) cs)
    → r.last_read_seq < invalid_seq
    → length cs ≤ r.last_read_seq + 1
    → (delivered (write_all w (reset w m) cs) (read r (write_all w (reset w m) cs)).0 ≡ none)
      × ((read r (write_all w (reset w m) cs)).1 ≡ r)
read-reset w m before cs r mapped fits given v a known few =
    let h =
      write_all-Represents w (reset w m) [] cs mapped fits given (omega arith)
        (reset-Represents w m before mapped v).0 in
    let n = length-map (frame_of w) cs in
    let (shown, cursor) = read-next r (write_all w (reset w m) cs) (map (frame_of w) cs) a h in
    let late : length (map (frame_of w) cs) ≤ next_index r (length (map (frame_of w) cs)) =
      ground (arith, n) in
    (shown ∙ get_elem?-beyond (map (frame_of w) cs) _ late, cursor ∙ ground arith)
