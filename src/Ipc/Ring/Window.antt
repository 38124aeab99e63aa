-- ===== src/Ipc/Ring/Window.antt =====
-- What the ring of ipc.cpp holds: the newest frames of all that were written since the last reset.
use mathlib.Core.Option
use native.Mathlib.Decide.{dec_le}
use native.Mathlib.Nat.{le_trans, mod-lt, mod-eq_of_lt, div-add-mod}
use insight_io.Base.{
  mul_mono, ℕ, zero, suc, ◌+◌, ◌*◌, ◌/◌, ◌%◌, ◌≤◌, ◌<◌, ◌≡◌, ◌≢◌, refl, sym, ap, ◌∙◌, true, Option,
  some, List, [], ◌∷◌, arith, ltb, if◌then◌else◌, length, get_elem?, modify, take, drop, u64_mod,
  u32_mod, take-append_left, take-all, modify-modify,
}
use insight_io.Ipc.Ring.{
  copy_payload, overwrite, Slot, Memory, Writer, Frame, slot_frame, bytes_at, slot_for_seq,
  write_size, publish_stores, publish_frame, write, notify_readers,
}

-- A slot's sequence number and frame.
abbrev pub held : Slot → ℕ × Frame
held s = (s.seq, slot_frame s)

-- The memory holds the last `buffer_slots` frames of the history, each in its own slot.
pub record Represents (history : List Frame) (m : Memory) : Type 0 where
  pub positive : 0 < m.header.buffer_slots
  pub word : m.header.buffer_slots < u32_mod
  pub sized : length m.slots ≡ m.header.buffer_slots
  pub unwrapped : length history < u64_mod
  pub counted : m.header.write_seq ≡ length history
  pub window :
      (i : ℕ)
      → i < length history
      → length history ≤ i + m.header.buffer_slots
      → Option.map held (get_elem? m.slots (i % m.header.buffer_slots))
        ≡ Option.map (λ f. (i, f)) (get_elem? history i)

pub index-lt : (n seq : ℕ) → 0 < n → n < u32_mod → seq % n % u32_mod ≡ seq % n
index-lt n seq h word = mod-eq_of_lt (le_trans (mod-lt seq h) (omega arith))

no_multiple_between : (n a b : ℕ) → n * a < n * b → n * b < n * a + n → ⊥
no_multiple_between n a b lo hi = elim (dec_le b a) [
  | yes h ↦ absurd (omega (arith, mul_mono n b a h))
  | no h ↦ absurd (omega (arith, mul_mono n (a + 1) b (omega arith)))
]

-- Two numbers less than `n` apart have different remainders.
pub mod-ne : (i j n : ℕ) → i < j → j < i + n → i % n ≢ j % n
mod-ne i j n h k e =
    no_multiple_between n (i / n) (j / n) (omega (arith, div-add-mod i n, div-add-mod j n))
      (omega (arith, div-add-mod i n, div-add-mod j n))

-- What `write` puts into the slot of frame `seq`.
pub filled : ℕ → List ℕ → ℕ → ℕ → ℕ → ℕ → Slot → Slot
filled seq bytes n pts dts flags s = record {
  seq = seq;
  pts_ns = pts;
  dts_ns = dts;
  size = n % u32_mod;
  flags = flags;
  payload = overwrite bytes s.payload;
}

pub slot_frame-filled :
    (seq : ℕ) (bytes : List ℕ) (n pts dts flags : ℕ) (s : Slot)
    → length bytes ≡ n
    → n < u32_mod
    → held (filled seq bytes n pts dts flags s)
      ≡ (seq, record { bytes = bytes; pts_ns = pts; dts_ns = dts; flags = flags })
unfolding filled
slot_frame-filled seq bytes n pts dts flags s e word =
    ap (λ (b : List ℕ). (seq, record { bytes = b; pts_ns = pts; dts_ns = dts; flags = flags }))
      (rw (mod-eq_of_lt word, ← e)
        (take-append_left (length bytes) bytes (drop (length bytes) s.payload) (omega arith)
          ∙ take-all (length bytes) bytes (omega arith)))

modify_id : (xs : List Slot) (i : ℕ) → modify xs i (λ s. s) ≡ xs
modify_id [] i = refl
modify_id (x ∷ xs) zero = refl
modify_id (x ∷ xs) (suc i) = ap (λ l. x ∷ l) (modify_id xs i)

-- A slot is found in every ring that has one.
pub slot_for_seq_lem : (n seq : ℕ) → 0 < n → n < u32_mod → slot_for_seq true n seq ≡ some (seq % n)
unfolding slot_for_seq
slot_for_seq_lem n seq h word = ground (arith, index-lt n seq h word)

-- Copying no byte changes nothing.
pub copied_lem :
    (m : Memory) (i : ℕ) (bytes : List ℕ) (n : ℕ)
    → (if ltb 0 n then copy_payload m i (take n bytes) else m) ≡ copy_payload m i (take n bytes)
unfolding copy_payload
copied_lem m i bytes zero = ap (λ l. record m { slots = l }) (sym (modify_id m.slots i))
copied_lem m i bytes (suc n) = ground arith

pub publish_frame_lem :
    (m : Memory) (i seq : ℕ) (bytes : List ℕ) (n pts dts flags : ℕ)
    → publish_frame m i seq bytes n pts dts flags ≡ record m {
      header = record m.header { write_seq = (seq + 1) % u64_mod };
      slots = modify m.slots i (filled seq (take n bytes) n pts dts flags);
    }
unfolding publish_frame publish_stores filled
publish_frame_lem m i seq bytes n pts dts flags =
    rw (copied_lem m i bytes n) (unfold copy_payload in simp modify-modify)

module _ (w : Writer) (m : Memory) (data_bytes : Option (List ℕ)) (size pts dts flags : ℕ)
    (mapped : w.mapped ≡ true) (given : size ≤ length (bytes_at data_bytes))
    (fits : w.payload_size < u32_mod) where
  abbrev pub stored : List ℕ
  stored = take (write_size w size) (bytes_at data_bytes)

  pub write_effect :
      0 < m.header.buffer_slots
      → m.header.buffer_slots < u32_mod
      → write w m data_bytes size pts dts flags ≡ (
        true,
        publish_frame m
            (m.header.write_seq % m.header.buffer_slots)
            m.header.write_seq
            (bytes_at data_bytes)
            (write_size w size)
            pts
            dts
            flags,
        notify_readers w.eventfds,
      )
  unfolding write
  write_effect positive word =
      ground (arith, slot_for_seq_lem m.header.buffer_slots m.header.write_seq positive word)
