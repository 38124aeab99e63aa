-- ===== src/Runtime/Publication/Reconcile.antt =====
-- What `reconcile_rtsp_publication_locked` leaves alone, and when an RTSP publisher runs after it.
use insight_io.Base.{
  ◌≡◌, refl, inl, inr, Bool, true, false, not, ◌&&◌, none, [], arith, if◌then◌else◌, Text,
  Bool-cases,
}
use insight_io.Runtime.State.{Entry, Answers}
use insight_io.Runtime.Publication.{
  effective_rtsp, has_ipc_consumers, is_running, with_publication, desired_publication,
  pause_idle_worker, unpublish, reconcile,
}
use insight_io.Runtime.Publication.Refusal.{
  Keeps, kept, reset-identity, channels_refusal, refusal, is_none,
}
use insight_io.Runtime.Publication.Started.{Outcome, moved, publish_channels-Started}

-- The entry with its wish for RTSP brought up to date.
abbrev pub noted : Entry → Entry
noted entry =
    with_publication entry (record (entry.rtsp_publication) { desired = effective_rtsp entry })

-- What `reconcile` owes: identities, consumers and attached readers stay; with a consumer that wants
-- RTSP the publisher runs exactly if there is no reason against it; with none it is gone, and the
-- worker runs only for readers.
pub record Reconciled (answers : Answers) (entry r : Entry) : Type 0 where
  pub keeps : Keeps (noted entry) r
  pub wanted :
      effective_rtsp entry ≡ true
      → Outcome (refusal answers entry) (is_none (channels_refusal entry.channels)) r
  pub unwanted :
      effective_rtsp entry ≡ false
      → (r.rtsp_publication.publisher ≡ none)
        × (r.rtsp_publication.last_error ≡ [])
        × (is_running r.worker ≡ true → has_ipc_consumers r ≡ true)

unpublish-Keeps : (entry : Entry) → Keeps entry (unpublish entry)
unfolding unpublish pause_idle_worker
unpublish-Keeps entry =
    elim (Bool-cases (not (has_ipc_consumers entry) && is_running entry.worker)) [
      | inl idle ↦ rw (idle, unpublish) (kept entry _ _ _ _ _ (reset-identity entry.channels) refl)
      | inr busy ↦ rw (busy, unpublish) (kept entry _ _ _ _ _ refl refl)
    ]

unpublish_lem :
    (entry : Entry)
    → ((unpublish entry).rtsp_publication.publisher ≡ none)
      × ((unpublish entry).rtsp_publication.last_error ≡ [])
      × (is_running (unpublish entry).worker ≡ true → has_ipc_consumers (unpublish entry) ≡ true)
unfolding unpublish pause_idle_worker
unpublish_lem entry = ground arith

Reconciled-if :
    (b : Bool) (answers : Answers) (entry x y : Entry)
    → (b ≡ true → Reconciled answers entry x)
    → (b ≡ false → Reconciled answers entry y)
    → Reconciled answers entry (if b then x else y)
Reconciled-if true answers entry x y p q = p refl
Reconciled-if false answers entry x y p q = q refl

-- After a pass of `reconcile` the entry's consumers, owner, aliases and channels are those it had,
-- with the readers attached to them, and its publication desires RTSP exactly if a consumer does. If
-- one does, the publisher runs, without an error, exactly if the entry has a single channel of a
-- format with a plan, the publisher ran before or starts, and the worker was not idle, or starts and
-- then runs or has published a frame; else there is no publisher, and the first reason against it is the
-- error. If none does, there is no publisher, no error, and a worker runs only if a reader is attached.
pub reconcile-Reconciled :
    (host : Text) (answers : Answers) (entry : Entry)
    → Reconciled answers entry (reconcile host answers entry)
unfolding reconcile
reconcile-Reconciled host answers entry =
    let p = desired_publication entry in
    let s =
      moved (noted entry) p _ _ _ refl
        (publish_channels-Started host answers (with_publication entry p) entry.channels) in
    Reconciled-if (effective_rtsp entry) answers entry _ _
      (λ on. record { keeps = s.keeps; wanted = λ _. s.outcome; unwanted = λ off. cc })
      (λ off. record {
        keeps = unpublish-Keeps (noted entry);
        wanted = λ on. cc;
        unwanted = λ _. unpublish_lem (noted entry);
      })
