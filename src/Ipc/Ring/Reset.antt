-- ===== src/Ipc/Ring/Reset.antt =====
-- `Writer::reset` of ipc.cpp empties the ring.
use mathlib.Core.Option
use mathlib.Core.Option.{some-injective}
use mathlib.Core.Path.{subst}
use native.Mathlib.Nat.{mod-eq_of_lt}
use native.Mathlib.Decide.{dec_lt}
use insight_io.Base.{
  none, ℕ, zero, suc, ◌+◌, ◌<◌, ◌≡◌, refl, sym, ap, ◌∙◌, true, Option, some, List, [], arith, ◌-◌,
  ◌^◌, length, get_elem?, modify, inl, inr, Option-cases, u32_mod, length-modify,
  get_elem?-modify_self, get_elem?-modify_ne,
}
use insight_io.Ipc.Ring.{
  Slot, Memory, RingHeader, slot_for_seq, clear_slot, Writer, Frame, update_slot, cleared,
  clear_slots, reset,
}
use insight_io.Ipc.Ring.Window.{Represents, slot_for_seq_lem}

clear_slot-keeps :
    (w : Writer) (index : ℕ) (m : Memory)
    → ((clear_slot w index m).header ≡ m.header)
      × (length (clear_slot w index m).slots ≡ length m.slots)
unfolding clear_slot
clear_slot-keeps w index m =
    elim (Option-cases (slot_for_seq w.mapped m.header.buffer_slots index)) [
      | inl e ↦ rw (e, clear_slot) (refl, refl)
      | inr (i, e) ↦ rw (e, clear_slot) (refl, length-modify m.slots i _)
    ]

clear_slots-keeps :
    (w : Writer) (rounds index : ℕ) (m : Memory)
    → ((clear_slots w rounds index m).header ≡ m.header)
      × (length (clear_slots w rounds index m).slots ≡ length m.slots)
unfolding clear_slots
clear_slots-keeps w zero index m = (refl, refl)
clear_slots-keeps w (suc rounds) index m =
    let (h, l) = clear_slot-keeps w index m in
    let (h', l') = clear_slots-keeps w rounds (index + 1) (clear_slot w index m) in (h' ∙ h, l' ∙ l)

-- A slot as `reset` leaves it.
pub record Emptied (s : Slot) : Type 0 where
  pub seq : s.seq ≡ 2 ^ 64 - 1
  pub pts_ns : s.pts_ns ≡ 0
  pub dts_ns : s.dts_ns ≡ 0
  pub size : s.size ≡ 0
  pub flags : s.flags ≡ 0

-- The slots below `index` are empty.
abbrev pub EmptiedTo : ℕ → Memory → Type 0
EmptiedTo index m = (i : ℕ) (s : Slot) → i < index → get_elem? m.slots i ≡ some s → Emptied s

clear_slot_lem :
    (w : Writer) (index : ℕ) (m : Memory)
    → w.mapped ≡ true
    → index < m.header.buffer_slots
    → m.header.buffer_slots < u32_mod
    → clear_slot w index m ≡ update_slot m index cleared
unfolding clear_slot
clear_slot_lem w index m mapped below word =
    let found : slot_for_seq w.mapped m.header.buffer_slots index ≡ some index =
      ap (λ b. slot_for_seq b m.header.buffer_slots index) mapped
      ∙ slot_for_seq_lem m.header.buffer_slots index (omega arith) word
      ∙ ap (λ i. some i) (mod-eq_of_lt below) in
    rw (found, clear_slot) refl

cleared-Emptied : (s : Slot) → Emptied (cleared s)
cleared-Emptied s = record { seq = refl; pts_ns = refl; dts_ns = refl; size = refl; flags = refl }

cleared_at : (o : Option Slot) (s : Slot) → Option.map cleared o ≡ some s → Emptied s
cleared_at none s h = absurd cc
cleared_at (some x) s h = subst Emptied (some-injective _ _ h) (cleared-Emptied x)

update_slot-EmptiedTo :
    (index : ℕ) (m : Memory)
    → EmptiedTo index m
    → EmptiedTo (index + 1) (update_slot m index cleared)
update_slot-EmptiedTo index m before i s near at = elim (dec_lt i index) [
  | yes h ↦ before i s h (sym (get_elem?-modify_ne m.slots index i cleared (λ e. omega arith)) ∙ at)
  | no h ↦
      let e : i ≡ index = omega arith in
      cleared_at (get_elem? m.slots index) s (
        sym (get_elem?-modify_self m.slots index cleared)
        ∙ ap (get_elem? (modify m.slots index cleared)) (sym e)
        ∙ at)
]

clear_slots-EmptiedTo :
    (w : Writer) (rounds index : ℕ) (m : Memory)
    → w.mapped ≡ true
    → index + rounds ≡ m.header.buffer_slots
    → m.header.buffer_slots < u32_mod
    → EmptiedTo index m
    → EmptiedTo m.header.buffer_slots (clear_slots w rounds index m)
unfolding clear_slots
clear_slots-EmptiedTo w zero index m mapped end word before =
    subst (λ k. EmptiedTo k m) (omega arith) before
clear_slots-EmptiedTo w (suc rounds) index m mapped end word before =
    subst (λ x. EmptiedTo m.header.buffer_slots (clear_slots w rounds (index + 1) x))
      (sym (clear_slot_lem w index m mapped (omega arith) word))
      (clear_slots-EmptiedTo w rounds (index + 1) (update_slot m index cleared) mapped (omega arith)
        word (update_slot-EmptiedTo index m before))

pub reset-Represents :
    (w : Writer) (m : Memory) (history : List Frame)
    → w.mapped ≡ true
    → Represents history m
    → Represents [] (reset w m) × EmptiedTo (length m.slots) (reset w m)
unfolding reset
reset-Represents w m history mapped v = simp mapped (
  empty,
  subst (λ k. EmptiedTo k (clear_slots w m.header.buffer_slots 0 start)) (sym v.sized)
      (clear_slots-EmptiedTo w m.header.buffer_slots 0 start mapped (omega arith) v.word
        (λ i s near at. absurd (omega arith))),
)
  where
    start : Memory
    start = record m { header = record m.header { write_seq = 0 } }

    kept :
        ((clear_slots w m.header.buffer_slots 0 start).header ≡ start.header)
        × (length (clear_slots w m.header.buffer_slots 0 start).slots ≡ length m.slots)
    kept = clear_slots-keeps w m.header.buffer_slots 0 start

    empty : Represents [] (clear_slots w m.header.buffer_slots 0 start)
    empty = record {
      positive = rw kept.0 v.positive;
      word = rw kept.0 v.word;
      sized = kept.1 ∙ v.sized ∙ sym (ap (λ (x : RingHeader). x.buffer_slots) kept.0);
      unwrapped = omega arith;
      counted = ap (λ (x : RingHeader). x.write_seq) kept.0;
      window = λ i below near. absurd (omega arith);
    }
