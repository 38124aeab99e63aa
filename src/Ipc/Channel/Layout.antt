-- ===== src/Ipc/Channel/Layout.antt =====
-- Where `slot_offset` of ipc.hpp puts the slots of a channel.
use insight_io.Base.{mul_mono, mul_mono_right, ℕ, ◌+◌, ◌*◌, ◌≤◌, ◌<◌, ◌≡◌, arith, u64_mod, u32_mod}
use native.Mathlib.Nat.{mod-eq_of_lt}
use insight_io.Ipc.Channel.{
  ChannelSpec, slot_offset, slot_size_of, total_size_of, ring_header_size, slot_header_size,
}

-- A channel that 64-bit arithmetic can size.
pub record Sized (spec : ChannelSpec) : Type 0 where
  pub slots : 0 < spec.buffer_slots
  pub slots_word : spec.buffer_slots < u32_mod
  pub bytes : 0 < spec.max_payload_bytes
  pub slot_word : slot_header_size + spec.max_payload_bytes < u32_mod

module _ (spec : ChannelSpec) (v : Sized spec) where
  pub slot_size-eq : slot_size_of spec ≡ slot_header_size + spec.max_payload_bytes
  slot_size-eq = omega (arith, v.slot_word)

  total_size-lt :
      (k : ℕ) → k ≤ spec.buffer_slots → ring_header_size + slot_size_of spec * k < u64_mod
  total_size-lt k h =
      let words : ℕ = 4294967295 in
      omega (
        arith,
        v.slots_word,
        v.slot_word,
        slot_size-eq,
        mul_mono_right (slot_size_of spec) words k (omega (arith, v.slot_word, slot_size-eq)),
      )

  -- Inside a channel `slot_offset` does not wrap around.
  slot_offset-eq :
      (k : ℕ)
      → k ≤ spec.buffer_slots
      → slot_offset (slot_size_of spec) k ≡ ring_header_size + slot_size_of spec * k
  unfolding slot_offset
  slot_offset-eq k h = mod-eq_of_lt (total_size-lt k h)

  pub total_size-eq : total_size_of spec ≡ ring_header_size + slot_size_of spec * spec.buffer_slots
  total_size-eq = mod-eq_of_lt (total_size-lt spec.buffer_slots (omega arith))

  slots_apart :
      (i j : ℕ) → i < j → slot_size_of spec * i + slot_size_of spec ≤ slot_size_of spec * j
  slots_apart i j h = omega (arith, mul_mono (slot_size_of spec) (i + 1) j (omega arith))

  -- In a channel whose number of slots and slot size are positive and fit 32 bits, the slots lie
  -- in the mapping behind the header, and no two of them overlap.
  pub slot_offset_bounds :
      (i j : ℕ)
      → i < j
      → j < spec.buffer_slots
      → (ring_header_size ≤ slot_offset (slot_size_of spec) i)
        × (slot_offset (slot_size_of spec) i + slot_size_of spec
            ≤ slot_offset (slot_size_of spec) j)
        × (slot_offset (slot_size_of spec) j + slot_size_of spec ≤ total_size_of spec)
  slot_offset_bounds i j ij jn =
      rw (slot_offset-eq i (omega arith), slot_offset-eq j (omega arith), total_size-eq)
        (
          omega arith,
          omega (arith, slots_apart i j ij),
          omega (arith, slots_apart j spec.buffer_slots jn),
        )
