-- ===== src/Runtime/Plan/Created.antt =====
-- `create_worker` on what `build_runtime_plan` of backend/src/session_service.cpp plans.
use mathlib.Core.Path.{subst}
use mathlib.Core.Option
use insight_io.Base.{
  ◌≡◌, refl, not, Option, none, some, List, arith, Text, codes, text_eq, Result, ok, err, Error,
  if_by_cases, [],
}
use insight_io.Json.{JsonApi}
use insight_io.Types.{ResolvedCaps}
use insight_io.Uri.Split.{strip_prefix}
use insight_io.Runtime.State.{RuntimeChannelPlan}
use insight_io.Runtime.Plan.Suffix.{parse_unsigned_suffix}
use insight_io.Runtime.Plan.{
  Build, PlanSource, SessionPlan, create_worker, is_test_device, v4l2_plan, pipewire_plan,
  orbbec_plan, grouped_plan, exact_orbbec_plan, preset_plan, any_orbbec_plan, build_runtime_plan,
  caps_at, delivered_caps, ◌>>=◌,
}

module _ (J : JsonApi) (build : Build) where
  -- A result whose worker, if it has one, can be made.
  abbrev Made : Result SessionPlan → Type 0
  Made r = (plan : SessionPlan) → r ≡ ok plan → create_worker build plan.worker ≡ none

  made : (p : SessionPlan) → create_worker build p.worker ≡ none → Made (ok p)
  made p h plan e =
      let same : p ≡ plan = cc in subst (λ q. create_worker build q.worker ≡ none) same h

  failed : (e : Error) → Made (err e)
  failed e plan same = absurd cc

  by_option :
      {A : Type 0} (o : Option A) (r : Result SessionPlan) (f : A → Result SessionPlan)
      → Made r
      → ((a : A) → Made (f a))
      → Made (elim o as (λ _. Result SessionPlan) [ none ↦ r | some a ↦ f a ])
  by_option none r f p q = p
  by_option (some a) r f p q = q a

  v4l2_plan-Made : (session : PlanSource J) (caps : ResolvedCaps) → Made (v4l2_plan J session caps)
  unfolding v4l2_plan create_worker
  v4l2_plan-Made session caps =
      if_by_cases Made (is_test_device _) _ _ (λ _. made _ refl)
        (λ _. by_option (strip_prefix _ _) _ _ (failed _) (λ path. made _ refl))

  pipewire_plan-Made :
      (session : PlanSource J) (caps : ResolvedCaps) → Made (pipewire_plan J build session caps)
  unfolding pipewire_plan create_worker
  pipewire_plan-Made session caps =
      if_by_cases Made (is_test_device _) _ _ (λ _. made _ refl)
        (λ _.
          if_by_cases Made (not build.has_pipewire) _ _ (λ _. failed _)
            (λ has.
              by_option (parse_unsigned_suffix _ _) _ _ (failed _) (λ node. made _ (ground arith))))

  orbbec_plan-Made :
      (session : PlanSource J) (channels : List RuntimeChannelPlan)
      (delivered native : List (Text × ResolvedCaps))
      → Made (orbbec_plan J build session channels delivered native)
  unfolding orbbec_plan create_worker
  orbbec_plan-Made session channels delivered native =
      if_by_cases Made (is_test_device _) _ _ (λ _. made _ refl)
        (λ _.
          if_by_cases Made (not build.has_orbbec) _ _ (λ _. failed _)
            (λ has. made _ (ground arith)))

  abbrev MadeIfAny : Option (Result SessionPlan) → Type 0
  MadeIfAny o = (plan : SessionPlan) → o ≡ some (ok plan) → create_worker build plan.worker ≡ none

  there : (r : Result SessionPlan) → Made r → MadeIfAny (some r)
  there r h plan e = h plan cc

  thrown : MadeIfAny none
  thrown plan e = absurd cc

  mapped :
      (o : Option ResolvedCaps) (f : ResolvedCaps → Result SessionPlan)
      → ((caps : ResolvedCaps) → Made (f caps))
      → MadeIfAny (Option.map f o)
  mapped none f h = thrown
  mapped (some caps) f h = there (f caps) (h caps)

  then_made :
      (o : Option ResolvedCaps) (f : ResolvedCaps → Option (Result SessionPlan))
      → ((caps : ResolvedCaps) → MadeIfAny (f caps))
      → MadeIfAny (o >>= f)
  then_made none f h = thrown
  then_made (some caps) f h = h caps

  preset_plan-Made : (session : PlanSource J) → MadeIfAny (preset_plan J build session)
  unfolding preset_plan grouped_plan
  preset_plan-Made session =
      let capture = session.capture_policy_json in
      then_made (caps_at J capture (codes "color_caps")) _ (λ color.
        then_made (caps_at J capture (codes "depth_native_caps")) _ (λ native.
          then_made (delivered_caps J capture native) _ (λ delivered.
            there (grouped_plan J build session color native delivered)
              (orbbec_plan-Made session _ _ _))))

  exact_orbbec_plan-Made :
      (session : PlanSource J) (caps : ResolvedCaps) → Made (exact_orbbec_plan J build session caps)
  unfolding exact_orbbec_plan
  exact_orbbec_plan-Made session caps = orbbec_plan-Made session _ _ _

  -- The worker of every plan that `build_runtime_plan` returns can be made by the same build:
  -- `create_worker` fails for none of them.
  pub create_worker-build_runtime_plan :
      (session : PlanSource J) (plan : SessionPlan)
      → build_runtime_plan J build session ≡ some (ok plan)
      → create_worker build plan.worker ≡ none
  unfolding build_runtime_plan any_orbbec_plan
  create_worker-build_runtime_plan session =
      let capture = session.capture_policy_json in
      let driver = J.value_text capture (codes "driver") [] in
      let selected = caps_at J capture (codes "selected_caps") in
      let preset = text_eq (J.value_text capture (codes "mode") []) (codes "grouped_preset") in
      if_by_cases MadeIfAny (not (J.is_object capture)) _ _ (λ _. there _ (failed _))
        (λ _.
          if_by_cases MadeIfAny (text_eq driver (codes "v4l2")) _ _
            (λ _. mapped selected _ (v4l2_plan-Made session))
            (λ _.
              if_by_cases MadeIfAny (text_eq driver (codes "pipewire")) _ _
                (λ _. mapped selected _ (pipewire_plan-Made session))
                (λ _.
                  if_by_cases MadeIfAny (text_eq driver (codes "orbbec")) _ _
                    (λ _.
                      if_by_cases MadeIfAny preset _ _ (λ _. preset_plan-Made session)
                        (λ _. mapped selected _ (exact_orbbec_plan-Made session)))
                    (λ _. there _ (failed _)))))
