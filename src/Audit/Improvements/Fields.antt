-- ===== src/Audit/Improvements/Fields.antt =====
-- The fields of an improvement job that an update makes are the same when it is made again.
use enji_guard_cli.Prelude.{ap, subst}
use enji_guard_cli.Audit.Improvements.{ImprovementDefinition, ImprovementJobUpdate, job_fields}
use enji_guard_cli.Prelude.{
  ◌≡◌, refl, inl, inr, Bool, true, false, Option, none, some, List, [], ◌∷◌, Bool-cases, ◌=s◌,
  =s_refl,
}
use enji_guard_cli.Audit.Tasks.{or_text}
use enji_guard_cli.Audit.Lifecycle.{same_text}
use enji_guard_cli.Audit.Improvements.{
  Effective, same_flag, same_texts, same_effective, or_else_flag, or_workdays, or_else_days,
  known_source,
}
use enji_guard_cli.Audit.Ledger.{or_else_text}
use enji_guard_cli.Audit.Scheduling.{
  auto_time_source, user_time_source, ScheduleTimeSelection, PythonTexts, select_schedule_time,
  select_preserved_auto_time,
}
use enji_guard_cli.Prelude.{String}

default_again : (s : String) → or_text (some s) s ≡ s
default_again s = elim (Bool-cases (s =s "")) [ inl e ↦ rw e refl | inr e ↦ rw e refl ]

or_text_again : (o : Option String) (s : String) → or_text (some (or_text o s)) s ≡ or_text o s
or_text_again none s = default_again s
or_text_again (some t) s = elim (Bool-cases (t =s "")) [
  | inl e ↦ rw e (default_again s)
  | inr e ↦ rw e (rw e refl)
]

or_else_text_again :
    (u o : Option String) (s : String)
    → or_text (or_else_text u (some (or_text (or_else_text u o) s))) s
      ≡ or_text (or_else_text u o) s
or_else_text_again none o s = or_text_again o s
or_else_text_again (some t) o s = elim (Bool-cases (t =s "")) [
  | inl e ↦ rw e (or_text_again o s)
  | inr e ↦ rw e (rw e refl)
]

pub zone_again :
    (u o : Option String) (z : String)
    → or_else_text u o ≡ some z
    → or_else_text u (some z) ≡ some z
zone_again none o z h = refl
zone_again (some t) o z h = elim (Bool-cases (t =s "")) [
  | inl e ↦ rw e refl
  | inr e ↦ rw e (rw e at h)
]

flag_again : (u o : Option Bool) → or_else_flag u (or_else_flag u o) ≡ or_else_flag u o
flag_again none o = refl
flag_again (some b) o = refl

days_again :
    (u : Option (List String)) (ds : List String)
    → or_else_days u (or_workdays (or_else_days u (or_workdays ds)))
      ≡ or_else_days u (or_workdays ds)
days_again none [] = refl
days_again none (d ∷ ds) = refl
days_again (some u) ds = refl

same_text_refl : (o : Option String) → same_text o o ≡ true
same_text_refl none = refl
same_text_refl (some s) = =s_refl s

same_flag_refl : (o : Option Bool) → same_flag o o ≡ true
same_flag_refl none = refl
same_flag_refl (some true) = refl
same_flag_refl (some false) = refl

same_texts_refl : (ss : List String) → same_texts ss ss ≡ true
same_texts_refl [] = refl
same_texts_refl (s ∷ ss) = rw (=s_refl s) (same_texts_refl ss)

pub same_effective_refl : (e : Effective) → same_effective e e ≡ true
unfolding same_effective
same_effective_refl e = rw (same_flag_refl e.enabled) (
    rw (same_flag_refl e.automatic_execution) (
      rw (same_text_refl e.provider_variant_key) (
        rw (=s_refl e.variant_key) (
          rw (same_text_refl e.frequency) (
            rw (same_texts_refl e.days_of_week) (
              rw (same_text_refl e.schedule_time) (
                rw (same_text_refl e.schedule_time_source)
                  (rw (same_text_refl e.timezone) (same_text_refl e.pentest_mode)))))))))

-- A selection that is chosen again from itself.
chosen_again :
    (f : Option String → Option String → Option ScheduleTimeSelection) (x t : ScheduleTimeSelection)
    → some x ≡ some t
    → f (some x.schedule_time) (known_source (some x.schedule_time_source)) ≡ some x
    → f (some t.schedule_time) (known_source (some t.schedule_time_source)) ≡ some t
chosen_again f x t h k =
    let same : x ≡ t = cc h in
    subst (λ y. f (some y.schedule_time) (known_source (some y.schedule_time_source)) ≡ some y) same
      k

abbrev timed : String → String → ScheduleTimeSelection
timed time source = record { schedule_time = time; schedule_time_source = source }

module _ (p : PythonTexts) where
  pub timing_again :
      (requested time source : Option String) (t : ScheduleTimeSelection)
      → select_preserved_auto_time p requested time source "09:00" ≡ some t
      → select_preserved_auto_time p requested
          (some t.schedule_time)
          (known_source (some t.schedule_time_source))
          "09:00"
        ≡ some t
  unfolding select_preserved_auto_time select_schedule_time
  timing_again none time source t h = elim (Bool-cases (same_text source (some user_time_source))) [
    | inl e ↦
        chosen_again (λ a b. select_preserved_auto_time p none a b "09:00") _ t (rw e at h)
          (ap (λ a. some (timed a user_time_source)) (or_text_again time "09:00"))
    | inr e ↦
        chosen_again (λ a b. select_preserved_auto_time p none a b "09:00") _ t (rw e at h) refl
  ]
  timing_again (some r) time source t h = elim (Bool-cases (r =s auto_time_source)) [
    | inl e ↦
        chosen_again (λ a b. select_preserved_auto_time p (some r) a b "09:00") _ t (rw e at h)
          (rw e (ap (λ a. some (timed a auto_time_source)) (or_text_again time "09:00")))
    | inr e ↦ rw e (rw e at h)
  ]

  pub fields_again :
      (e : Effective) (d : ImprovementDefinition) (u : ImprovementJobUpdate) (z : String)
      (t : ScheduleTimeSelection)
      → job_fields p (job_fields p e d u z t) d u z t ≡ job_fields p e d u z t
  unfolding job_fields
  fields_again e d u z t = rw (flag_again u.enabled e.enabled) (
      rw (flag_again u.automatic_execution e.automatic_execution) (
        rw (or_text_again e.provider_variant_key d.variant_key) (
          rw (or_else_text_again u.frequency e.frequency "workdays") (
            rw (days_again u.days_of_week e.days_of_week)
              (rw (or_text_again e.pentest_mode "off") refl)))))
