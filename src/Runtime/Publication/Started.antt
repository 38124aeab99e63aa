-- ===== src/Runtime/Publication/Started.antt =====
-- What the part of `reconcile_rtsp_publication_locked` does in which a consumer wants RTSP.
use insight_io.Base.{
  ◌≡◌, refl, ◌∙◌, inl, inr, Bool, true, false, not, ◌&&◌, Option, none, some, List, [], ◌∷◌, map,
  if◌then◌else◌, Text, Bool-cases, Option-cases,
}
use insight_io.Rtsp.{build_rtsp_publication_plan}
use insight_io.Runtime.State.{ChannelState, RtspPublicationState, Entry, Answers}
use insight_io.Runtime.Publication.{
  any_published, is_running, is_idle, reset_channel, reset_channels, with_publication,
  channel_publication, planned_publication, unpublished, wait_frames, start_worker, start_publisher,
  publish_channel, publish_channels,
}
use insight_io.Runtime.Publication.Refusal.{
  Keeps, kept, reset-identity, wait-identity, or_else, format_refusal, channels_refusal,
  publisher_refusal, worker_refusal, is_none, text_or_empty,
}

-- What a pass that wants RTSP ends in: the publisher runs exactly if there is no reason against it,
-- and the reason is the error.
pub record Outcome (reason : Option Text) (planned : Bool) (r : Entry) : Type 0 where
  pub publisher : r.rtsp_publication.publisher ≡ (if is_none reason then some true else none)
  pub last_error : r.rtsp_publication.last_error ≡ text_or_empty reason
  pub supported : r.rtsp_publication.supported ≡ planned

pub record Started (reason : Option Text) (supported : Bool) (entry r : Entry) : Type 0 where
  pub keeps : Keeps entry r
  pub outcome : Outcome reason supported r

refused :
    (reason : Text) (planned : Bool) (entry r : Entry)
    → Keeps entry r
    → r.rtsp_publication.publisher ≡ none
    → r.rtsp_publication.last_error ≡ reason
    → r.rtsp_publication.supported ≡ planned
    → Started (some reason) planned entry r
refused reason planned entry r keeps p e s = record {
  keeps = keeps;
  outcome = record { publisher = p; last_error = e; supported = s };
}

Started-if :
    (b : Bool) (entry x y : Entry) (o q : Option Text) (supported : Bool)
    → Started o supported entry x
    → Started q supported entry y
    → Started (if b then o else q) supported entry (if b then x else y)
Started-if true entry x y o q supported s t = s
Started-if false entry x y o q supported s t = t

Started-or_else :
    (o q : Option Text) (entry : Entry) (f : Text → Entry) (y : Entry) (supported : Bool)
    → ((reason : Text) → Started (some reason) supported entry (f reason))
    → Started q supported entry y
    → Started (or_else o q) supported entry (elim o [ some reason ↦ f reason | none ↦ y ])
Started-or_else none q entry f y supported s t = t
Started-or_else (some reason) q entry f y supported s t = s reason

start_worker-Started :
    (answers : Answers) (entry : Entry)
    → entry.rtsp_publication.publisher ≡ some true
    → entry.rtsp_publication.supported ≡ true
    → Started (worker_refusal answers entry) true entry (start_worker answers entry)
unfolding start_worker
start_worker-Started answers entry running supported =
    let fresh = reset-identity entry.channels in
    let waited = wait-identity answers.frames (map reset_channel entry.channels) ∙ fresh in
    Started-if (is_idle entry.worker) entry _ _ _ _ true
      (Started-or_else answers.worker_start _ entry (unpublished (reset_channels entry)) _ true
        (λ t. refused t true entry _ (kept entry _ _ _ _ _ fresh refl) refl refl supported)
        (Started-if
          (not answers.worker_survives
            && not (any_published (wait_frames answers.frames (map reset_channel entry.channels))))
          entry _ _ _ _ true
          (record {
            keeps = kept entry _ _ _ _ _ waited refl;
            outcome = record { publisher = refl; last_error = refl; supported = supported };
          })
          (record {
            keeps = kept entry _ _ _ _ _ waited refl;
            outcome = record { publisher = running; last_error = refl; supported = supported };
          })))
      (record {
        keeps = kept entry _ _ _ _ _ refl refl;
        outcome = record { publisher = running; last_error = refl; supported = supported };
      })

is_running-some : (p : Option Bool) → is_running p ≡ true → p ≡ some true
is_running-some (some true) e = refl
is_running-some (some false) e = cc
is_running-some none e = cc

-- What holds from an entry with another publication holds from the entry.
pub moved :
    (entry : Entry) (p : RtspPublicationState) (r : Entry) (o : Option Text) (supported : Bool)
    → p.desired ≡ entry.rtsp_publication.desired
    → Started o supported (with_publication entry p) r
    → Started o supported entry r
moved entry p r o supported e s = record {
  keeps = record {
    runtime_key = s.keeps.runtime_key;
    owner = s.keeps.owner;
    consumers = s.keeps.consumers;
    aliases = s.keeps.aliases;
    channels = s.keeps.channels;
    desired = s.keeps.desired ∙ e;
  };
  outcome = s.outcome;
}

start_publisher-Started :
    (answers : Answers) (entry : Entry)
    → entry.rtsp_publication.supported ≡ true
    → Started
        (or_else (publisher_refusal answers entry) (worker_refusal answers entry))
        true
        entry
        (start_publisher answers entry)
unfolding start_publisher
start_publisher-Started answers entry supported =
    let zeroed =
      with_publication entry (record (entry.rtsp_publication) { frames_forwarded = 0 }) in
    let begun = record (entry.rtsp_publication) { frames_forwarded = 0; publisher = some true } in
    elim (Bool-cases (is_running entry.rtsp_publication.publisher)) [
      | inl up ↦ rw up (start_worker-Started answers entry (is_running-some _ up) supported)
      | inr down ↦ rw down (
          Started-or_else answers.publisher_start _ entry (unpublished zeroed) _ true
            (λ t. refused t true entry _ (kept entry _ _ _ _ _ refl refl) refl refl supported)
            (moved entry begun _ _ true refl
              (start_worker-Started answers (with_publication entry begun) refl supported)))
    ]

publish_channel-Started :
    (host : Text) (answers : Answers) (entry : Entry) (c : ChannelState)
    → Started
        (or_else
          (format_refusal c)
          (or_else (publisher_refusal answers entry) (worker_refusal answers entry)))
        (is_none (format_refusal c))
        entry
        (publish_channel host answers entry c)
unfolding publish_channel
publish_channel-Started host answers entry c =
    elim (Option-cases (build_rtsp_publication_plan c.delivered_caps)) [
      | inl unplanned ↦
          rw (unplanned, publish_channel, format_refusal)
            (refused _ false entry _ (kept entry _ _ _ _ _ refl refl) refl refl refl)
      | inr (plan, planned) ↦
          rw (planned, publish_channel, format_refusal)
            (let p = planned_publication (channel_publication host entry c) plan in
              moved entry p _ _ true refl
                (start_publisher-Started answers (with_publication entry p) refl))
    ]

pub publish_channels-Started :
    (host : Text) (answers : Answers) (entry : Entry) (cs : List ChannelState)
    → Started
        (or_else
          (channels_refusal cs)
          (or_else (publisher_refusal answers entry) (worker_refusal answers entry)))
        (is_none (channels_refusal cs))
        entry
        (publish_channels host answers entry cs)
unfolding publish_channels
publish_channels-Started host answers entry [] =
    refused _ false entry _ (kept entry _ _ _ _ _ refl refl) refl refl refl
publish_channels-Started host answers entry (c ∷ []) = publish_channel-Started host answers entry c
publish_channels-Started host answers entry (c ∷ d ∷ cs) =
    refused _ false entry _ (kept entry _ _ _ _ _ refl refl) refl refl refl
