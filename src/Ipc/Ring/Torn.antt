-- ===== src/Ipc/Ring/Torn.antt =====
-- `Writer::write` and `Reader::read` of ipc.cpp interleaved: the payload of the oldest frame is
-- overwritten before its sequence number is.
use mathlib.Core.Option.{some-injective}
use mathlib.Core.List.{append-nil}
use native.Mathlib.Decide.{dec_le}
use native.Mathlib.Nat.{mod-eq-sub-mod}
use insight_io.Base.{
  Bool, true, min, ◌<◌, u32_mod, ℕ, ◌-◌, ◌%◌, ◌≤◌, ◌≡◌, refl, sym, ap, ◌∙◌, inl, inr, some, List,
  ◌++◌, arith, length, get_elem?, take, drop, Option-cases, get_elem?-modify_self, take-append_left,
  take-all, length-take, length-drop, length-append, drop-beyond,
}
use insight_io.Ipc.Ring.{
  overwrite, Memory, Reader, Writer, Frame, slot_frame, read, delivered, copy_payload,
  publish_stores, run_stores, publish_frame, write_size, write,
}
use insight_io.Ipc.Ring.Window.{Represents, held, copied_lem, write_effect}
use insight_io.Ipc.Ring.Write.{write_size_lem}
use insight_io.Ipc.Ring.Read.{Attached, next_index, read_at}

take-overwrite :
    (k : ℕ) (bytes payload : List ℕ)
    → length bytes ≡ length (take k payload)
    → take k (overwrite bytes payload) ≡ bytes
take-overwrite k bytes payload e = elim (dec_le k (length bytes)) [
  | yes h ↦ take-append_left k bytes _ h ∙ take-all k bytes (omega (arith, length-take k payload))
  | no h ↦
      take-all k (overwrite bytes payload) (
        omega (
          arith,
          length-take k payload,
          length-append bytes (drop (length bytes) payload),
          length-drop (length bytes) payload,
        ))
      ∙ ap (λ l. bytes ++ l)
          (drop-beyond payload (length bytes) (omega (arith, length-take k payload)))
      ∙ append-nil bytes
]

module _ (r : Reader) (m : Memory) (history : List Frame) (f : Frame) (bytes : List ℕ)
    (a : Attached r m) (v : Represents history m) where
  -- The same for the copy alone.
  read-copy_payload :
      m.header.buffer_slots ≤ length history
      → next_index r (length history) ≡ length history - m.header.buffer_slots
      → get_elem? history (length history - m.header.buffer_slots) ≡ some f
      → length bytes ≡ length f.bytes
      → let torn = copy_payload m (length history % m.header.buffer_slots) bytes in
        delivered torn (read r torn).0 ≡ some (record f { bytes = bytes })
  unfolding copy_payload
  read-copy_payload full behind oldest same =
      let n = m.header.buffer_slots in
      let i = length history - n in
      let w = v.window i (omega (arith, v.positive)) (omega arith) in
      let back : i % n ≡ length history % n = sym (mod-eq-sub-mod full) in
      elim (Option-cases (get_elem? m.slots (i % n))) [
        | inl missing ↦ absurd (cc (w, oldest, missing))
        | inr (s, found) ↦
            let at : held s ≡ (i, f) = some-injective _ _ (cc (w, oldest, found)) in
            let renewed = record s { payload = overwrite bytes s.payload } in
            let kept =
              take-overwrite s.size bytes s.payload
                (same ∙ sym (ap (λ (p : ℕ × Frame). length p.1.bytes) at)) in
            read_at r (copy_payload m (length history % n) bytes) (length history) i renewed
              (record { mapped = a.mapped; same_slots = a.same_slots; cursor = a.cursor }) v.counted
              v.unwrapped v.positive v.word behind (omega (arith, v.positive))
              (rw (back, get_elem?-modify_self m.slots, ← back, found) refl)
              (ap (λ (p : ℕ × Frame). p.0) at)
            ∙ ap some (ap (λ b. record (slot_frame s) { bytes = b }) kept)
            ∙ ap (λ (p : ℕ × Frame). some (record (p.1) { bytes = bytes })) at
      ]

-- For a reader that is attached to a full ring that represents a history, and whose next frame is the
-- oldest one held: a call of `write` that stores as many bytes as that frame has is a sequence of
-- stores, and after the first of them the reader gets the oldest frame with the new bytes. Its
-- timestamps and flags go with bytes that it never had.
pub read-publish_stores :
    (w : Writer) (r : Reader) (m : Memory) (history : List Frame) (f : Frame) (bytes : List ℕ)
    (size pts dts flags : ℕ)
    → w.mapped ≡ true
    → w.payload_size < u32_mod
    → size ≤ length bytes
    → Attached r m
    → Represents history m
    → m.header.buffer_slots ≤ length history
    → next_index r (length history) ≡ length history - m.header.buffer_slots
    → get_elem? history (length history - m.header.buffer_slots) ≡ some f
    → min w.payload_size size ≡ length f.bytes
    → let stores =
        publish_stores
          (length history % m.header.buffer_slots)
          (length history)
          bytes
          (min w.payload_size size)
          pts
          dts
          flags in
      let torn = run_stores (take 1 stores) m in
      ((write w m (some bytes) size pts dts flags).1 ≡ run_stores stores m)
      × (delivered torn (read r torn).0
          ≡ some (record f { bytes = take (min w.payload_size size) bytes }))
unfolding publish_stores publish_frame
read-publish_stores w r m history f bytes size pts dts flags mapped fits given a v full behind
      oldest same =
    let n = min w.payload_size size in
    let i = length history % m.header.buffer_slots in
    (
      ap (λ (x : Bool × Memory × List ℕ). x.1)
            (write_effect w m (some bytes) size pts dts flags mapped given fits v.positive v.word)
          ∙ ap
              (λ k.
                publish_frame m (k % m.header.buffer_slots) k bytes (write_size w size) pts dts
                  flags)
              v.counted
          ∙ ap (λ k. publish_frame m i (length history) bytes k pts dts flags)
              (write_size_lem w size),
      ap (λ x. delivered x (read r x).0) (copied_lem m i bytes n)
          ∙ read-copy_payload r m history f (take n bytes) a v full behind oldest
              (omega (arith, length-take n bytes, same)),
    )
