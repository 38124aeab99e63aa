-- ===== src/Ipc/Ring/Write.antt =====
-- `Writer::write` of ipc.cpp extends the history by one frame.
use mathlib.Core.Option
use mathlib.Core.Option.{some-injective}
use mathlib.Core.Path.{subst}
use native.Mathlib.Nat.{mod-lt, mod-eq_of_lt}
use native.Mathlib.Decide.{dec_lt}
use insight_io.Base.{
  none, ℕ, ◌+◌, ◌%◌, ◌≤◌, ◌<◌, ◌≡◌, refl, sym, ap, ◌∙◌, true, Option, some, List, [], ◌∷◌, ◌++◌,
  arith, map, min, Bool, false, if◌then◌else◌, length, get_elem?, modify, take, u64_mod, u32_mod,
  length-append, length-modify, length-take, get_elem?-modify_self, get_elem?-modify_ne,
  get_elem?-below, get_elem?-append_left, get_elem?-append_last,
}
use insight_io.Ipc.Ring.{
  Slot, Memory, Writer, Frame, bytes_at, write_size, publish_frame, write, notify_readers,
}
use insight_io.Ipc.Ring.Window.{
  Represents, held, filled, slot_frame-filled, mod-ne, publish_frame_lem, write_effect,
}

-- The frame that a call of `write` adds: a payload that is too long is cut.
abbrev pub frame_of_call : Writer → Option (List ℕ) → ℕ → ℕ → ℕ → ℕ → Frame
frame_of_call w bytes size pts dts flags = record {
  bytes = take (min w.payload_size size) (bytes_at bytes);
  pts_ns = pts;
  dts_ns = dts;
  flags = flags;
}

pub write_size_lem : (w : Writer) (size : ℕ) → write_size w size ≡ min w.payload_size size
unfolding write_size
write_size_lem w size = ground arith

write_size-le : (w : Writer) (size : ℕ) → write_size w size ≤ size
unfolding write_size
write_size-le w size = ground arith

write_size-fits : (w : Writer) (size : ℕ) → write_size w size ≤ w.payload_size
unfolding write_size
write_size-fits w size = ground arith

module _ (history : List Frame) (m : Memory) (f : Frame) (bytes : List ℕ) (n pts dts flags : ℕ)
    (v : Represents history m) (cut : length (take n bytes) ≡ n) (word : n < u32_mod)
    (shown : f ≡ record { bytes = take n bytes; pts_ns = pts; dts_ns = dts; flags = flags }) where
  abbrev slots_after : List Slot
  slots_after =
      modify m.slots (length history % m.header.buffer_slots)
        (filled (length history) (take n bytes) n pts dts flags)

  target-lt : length history % m.header.buffer_slots < length m.slots
  target-lt = rw v.sized (mod-lt (length history) v.positive)

  newest_held :
      Option.map held (get_elem? slots_after (length history % m.header.buffer_slots))
      ≡ some (length history, f)
  newest_held =
      let (s, e) = get_elem?-below m.slots _ target-lt in
      rw (get_elem?-modify_self m.slots, e, shown)
        (ap some (slot_frame-filled (length history) (take n bytes) n pts dts flags s cut word))

  window_after :
      (i : ℕ)
      → i < length (history ++ f ∷ [])
      → length (history ++ f ∷ []) ≤ i + m.header.buffer_slots
      → Option.map held (get_elem? slots_after (i % m.header.buffer_slots))
        ≡ Option.map (λ g. (i, g)) (get_elem? (history ++ f ∷ []) i)
  window_after i below near = elim (dec_lt i (length history)) [
    | yes h ↦
        rw
          (
            get_elem?-append_left history (f ∷ []) i h,
            get_elem?-modify_ne m.slots _ (i % m.header.buffer_slots) _ (λ e.
                mod-ne i (length history) m.header.buffer_slots h
                  (omega (arith, length-append history (f ∷ []))) (sym e)),
          )
          (v.window i h (omega (arith, length-append history (f ∷ []))))
    | no h ↦
        let e : i ≡ length history = omega (arith, length-append history (f ∷ [])) in
        rw (e, get_elem?-append_last history f) newest_held
  ]

  -- A published frame extends the history.
  pub publish_frame-Represents :
      length history + 1 < u64_mod
      → Represents (history ++ f ∷ []) (
          publish_frame m
            (length history % m.header.buffer_slots)
            (length history)
            bytes
            n
            pts
            dts
            flags)
  publish_frame-Represents room = rw publish_frame_lem (record {
    positive = v.positive;
    word = v.word;
    sized = length-modify m.slots _ _ ∙ v.sized;
    unwrapped = omega (arith, length-append history (f ∷ []));
    counted = mod-eq_of_lt room ∙ sym (length-append history (f ∷ []));
    window = window_after;
  })

abbrev pub is_open : Option ℕ → Bool
is_open none = false
is_open (some fd) = true

-- The elements that pass the test, in their order.
abbrev pub keep {ℓ} : {A : Type ℓ} → (A → Bool) → List A → List A
keep test [] = []
keep test (x ∷ xs) = if test x then x ∷ keep test xs else keep test xs

notify_readers_lem :
    (fds : List (Option ℕ)) → map (λ fd. some fd) (notify_readers fds) ≡ keep is_open fds
unfolding notify_readers
notify_readers_lem [] = refl
notify_readers_lem (none ∷ fds) = notify_readers_lem fds
notify_readers_lem (some fd ∷ fds) = ap (λ l. some fd ∷ l) (notify_readers_lem fds)

-- Let a ring represent a history of fewer than 2 ^ 64 - 1 frames. A call of `write` by a mapped
-- writer, whose payloads are shorter than 2 ^ 32 bytes, with as many bytes as it says, succeeds,
-- signals each of the writer's descriptors that is open, once and in their order, and the ring then
-- represents the history with the call's frame behind it, cut to the writer's payload size.
pub write-Represents :
    (w : Writer) (m : Memory) (history : List Frame) (bytes : Option (List ℕ))
    (size pts dts flags : ℕ)
    → w.mapped ≡ true
    → w.payload_size < u32_mod
    → size ≤ length (bytes_at bytes)
    → length history + 1 < u64_mod
    → Represents history m
    → ((write w m bytes size pts dts flags).0 ≡ true)
      × Represents
          (history ++ frame_of_call w bytes size pts dts flags ∷ [])
          (write w m bytes size pts dts flags).1
      × (map (λ fd. some fd) (write w m bytes size pts dts flags).2 ≡ keep is_open w.eventfds)
write-Represents w m history bytes size pts dts flags mapped fits given room v =
    rw (write_effect w m bytes size pts dts flags mapped given fits v.positive v.word) (
      refl,
      subst
          (λ seq. Represents (history ++ frame_of_call w bytes size pts dts flags ∷ []) (
            publish_frame m (seq % m.header.buffer_slots) seq (bytes_at bytes) (write_size w size)
              pts dts flags))
          (sym v.counted) extended,
      notify_readers_lem w.eventfds,
    )
  where
    extended : Represents (history ++ frame_of_call w bytes size pts dts flags ∷ []) (
        publish_frame m
          (length history % m.header.buffer_slots)
          (length history)
          (bytes_at bytes)
          (write_size w size)
          pts
          dts
          flags)
    extended =
        publish_frame-Represents history m _ (bytes_at bytes) (write_size w size) pts dts flags v
          (omega (arith, length-take (write_size w size) (bytes_at bytes), write_size-le w size))
          (omega (arith, write_size-fits w size)) (rw (write_size_lem w size) refl) room
