-- ===== src/Audit/Improvements/Laws.antt =====
-- What is written for an improvement job settles it: the same update writes nothing more.
use enji_guard_cli.Audit.Improvements.Fields.{
  zone_again, same_effective_refl, timing_again, fields_again,
}
use enji_guard_cli.Prelude.{◌&&◌, is_none}
use enji_guard_cli.Audit.Improvements.{short_kind}
use enji_guard_cli.Audit.Improvements.{compared}
use enji_guard_cli.Prelude.{◌>>=◌, sym, ◌∙◌}
use enji_guard_cli.Audit.Improvements.{
  ImprovementJob, effective_of, WriteResult, validate_improvement_job_update, selected_timing,
  updated_job, or_none, desired_job, written, unless_disabled, set_one,
}
use enji_guard_cli.Audit.Catalog.{guarded}
use enji_guard_cli.Prelude.{ap, subst}
use enji_guard_cli.Audit.Improvements.{ImprovementDefinition, ImprovementJobUpdate, job_fields}
use enji_guard_cli.Prelude.{◌≡◌, refl, inl, inr, Bool, true, false, Option, none, some, Bool-cases}
use enji_guard_cli.Audit.Tasks.{or_text}
use enji_guard_cli.Audit.Improvements.{Effective, same_flag, same_effective, known_source}
use enji_guard_cli.Audit.Ledger.{or_else_text}
use enji_guard_cli.Audit.Scheduling.{ScheduleTimeSelection, PythonTexts}
use enji_guard_cli.Prelude.{String}

bind_inverse :
    {A B : Type 0} (m : Option A) (f : A → Option B) {b : B}
    → (m >>= f) ≡ some b
    → (a : A) × (m ≡ some a) × (f a ≡ some b)
bind_inverse none f h = absurd (cc h)
bind_inverse (some a) f h = (a, refl, h)

module _ (p : PythonTexts) where
  -- What a job has where it was made by an update.
  record IsUpdated (e : Effective) (d : ImprovementDefinition) (u : ImprovementJobUpdate)
      (f : Effective) : Type 0 where
    zone : String
    timing : ScheduleTimeSelection
    zone_given : or_else_text u.timezone e.timezone ≡ some zone
    timing_given : selected_timing p e u ≡ some timing
    fields : f ≡ job_fields p e d u zone timing

  updated_job-IsUpdated :
      (existing : Option ImprovementJob) (d : ImprovementDefinition) (u : ImprovementJobUpdate)
      (j : ImprovementJob)
      → updated_job p existing d u ≡ some j
      → IsUpdated (effective_of existing) d u j.effective
  unfolding updated_job
  updated_job-IsUpdated existing d u j h =
      let (z, a, h1) =
        bind_inverse (or_else_text u.timezone (effective_of existing).timezone) _ h in
      let (t, b, h2) = bind_inverse (selected_timing p (effective_of existing) u) _ h1 in
      record {
        zone = z;
        timing = t;
        zone_given = a;
        timing_given = b;
        fields = sym (
            ap
              (λ o. elim o [
                | none ↦ job_fields p (effective_of existing) d u z t
                | some x ↦ x.effective
              ])
              h2);
      }

  or_none_inverse :
      (b : Bool) (o : Option ImprovementJob) (j : ImprovementJob)
      → or_none p b o ≡ some (some j)
      → o ≡ some j
  or_none_inverse true o j h = absurd (cc h)
  or_none_inverse false none j h = absurd (cc h)
  or_none_inverse false (some x) j h = cc h

  abbrev sent : WriteResult → Option ImprovementJob
  sent (WriteResult.unchanged _) = none
  sent (WriteResult.changed _ j) = some j

  written_inverse :
      (endpoint to : String) (existing desired : Option ImprovementJob) (j : ImprovementJob)
      → written p endpoint existing desired ≡ WriteResult.changed to j
      → desired ≡ some j
  unfolding written compared
  written_inverse endpoint to existing none j h = absurd (cc h)
  written_inverse endpoint to none (some x) j h = ap sent h
  written_inverse endpoint to (some e) (some x) j h =
      elim (Bool-cases (same_effective e.effective x.effective)) [
        | inl q ↦ absurd (cc (rw q at h))
        | inr q ↦ ap sent (rw q at h)
      ]

  unless_disabled_inverse :
      (b : Bool) (r : Option WriteResult) (to : String) (j : ImprovementJob)
      → unless_disabled p b r ≡ some (WriteResult.changed to j)
      → r ≡ some (WriteResult.changed to j)
  unless_disabled_inverse true r to j h = absurd (cc h)
  unless_disabled_inverse false r to j h = h

  updated_again :
      (d : ImprovementDefinition) (u : ImprovementJobUpdate) (e : Effective) (j : ImprovementJob)
      → IsUpdated e d u j.effective
      → (x : ImprovementJob) × (updated_job p (some j) d u ≡ some x) × (x.effective ≡ j.effective)
  unfolding updated_job selected_timing job_fields
  updated_again d u e j i =
      let zone =
        ap (λ f. or_else_text u.timezone f.timezone) i.fields
        ∙ zone_again u.timezone e.timezone i.zone i.zone_given in
      let timing =
        ap (λ f. selected_timing p f u) i.fields
        ∙ timing_again p u.schedule_time e.schedule_time (known_source e.schedule_time_source)
            i.timing i.timing_given in
      (
        record {
          action_key = d.action_key;
          kind = j.kind;
          effective = job_fields p j.effective d u i.zone i.timing;
        },
        rw zone (rw timing refl),
        ap (λ f. job_fields p f d u i.zone i.timing) i.fields
            ∙ fields_again p e d u i.zone i.timing
            ∙ sym i.fields,
      )

  -- Once an update of an improvement job has been written, the same update of the job that the
  -- service then reports writes nothing, if the reported job agrees with the written one in the
  -- compared fields, whatever its alias.
  pub set_one_settles :
      (d : ImprovementDefinition) (existing : Option ImprovementJob) (u : ImprovementJobUpdate)
      (to : String) (j reported : ImprovementJob)
      → set_one p d existing u ≡ some (WriteResult.changed to j)
      → reported.effective ≡ j.effective
      → set_one p d (some reported) u ≡ some (WriteResult.unchanged (some reported))
  unfolding set_one desired_job written compared
  set_one_settles d existing u to j reported h r =
      let (_, supported, h1) = bind_inverse (guarded d.supported) _ h in
      let (_, valid, h2) = bind_inverse (validate_improvement_job_update p u) _ h1 in
      let to_endpoint = or_text d.kind (or_text d.kind (short_kind d.action_key)) in
      let h3 =
        unless_disabled_inverse (is_none existing && same_flag u.enabled (some false))
          (desired_job p existing d u >>= (λ w. some (written p to_endpoint existing w))) to j h2 in
      let (w, h4, h5) =
        bind_inverse (desired_job p existing d u) (λ w. some (written p to_endpoint existing w))
          h3 in
      let k = written_inverse to_endpoint to existing w j (cc h5) in
      let (_, _, h6) = bind_inverse (validate_improvement_job_update p u) _ (h4 ∙ ap some k) in
      let i = updated_job-IsUpdated existing d u j (or_none_inverse _ _ j h6) in
      let (x, again, same) =
        updated_again d u (effective_of existing) reported
          (subst (IsUpdated (effective_of existing) d u) (sym r) i) in
      rw supported (
        rw valid (
          rw again (
            rw
              (subst (λ f. same_effective reported.effective f ≡ true) (sym same)
                (same_effective_refl reported.effective))
              refl)))
