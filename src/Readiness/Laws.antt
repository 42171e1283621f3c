-- ===== src/Readiness/Laws.antt =====
-- The readiness of the backend: its file is read back, what a ready verdict rests on, and the grace
-- that a backend has after a success.
use enji_guard_cli.Prelude.{◌<◌, ◌∙◌}
use enji_guard_cli.Readiness.{verdict, in_utc, verdict_for, verdict_of}
use enji_guard_cli.Prelude.{sucℤ, sym, ap, subst, ◌↔◌, not, List, [], ◌∷◌, if◌then◌else◌, length}
use enji_guard_cli.Readiness.{
  BackendReadinessProbe, state_after_probe, verdict_at, readiness_verdict,
}
use enji_guard_cli.Audit.Ledger.Commit.{start}
use enji_guard_cli.Prelude.{
  ℤ, pos, negsuc, at_least, ℕ, ◌+◌, ◌-◌, ◌/◌, ◌≤◌, String, ◌≡◌, refl, Bool, true, false, Option,
  none, some, arith, is_some, is_none,
}
use enji_guard_cli.Json.{Json, get_or, get, as_text_or_null, text_or_null}
use enji_guard_cli.Readiness.{
  BackendReadinessState, ReadinessSettings, clock_anomaly_tolerance, bool_or_null, integer,
  integer_or_null, state_fields, write_backend_readiness_state, optional_str, optional_int,
  bool_or_none, state_from_payload, read_backend_readiness_state, readiness_unavailable_reason,
  parse_datetime,
}
use enji_guard_cli.Timestamps.{IsoFormat}

text_or_null-optional : (o : Option String) → optional_str (text_or_null o) ≡ o
text_or_null-optional none = refl
text_or_null-optional (some s) = refl

text_or_null-as : (o : Option String) → as_text_or_null (text_or_null o) ≡ some o
text_or_null-as none = refl
text_or_null-as (some s) = refl

bool_or_null-none : (o : Option Bool) → bool_or_none (bool_or_null o) ≡ some o
bool_or_null-none none = refl
bool_or_null-none (some b) = refl

integer-optional : (i : ℤ) → optional_int (integer i) ≡ some i
integer-optional (pos n) = refl
integer-optional (negsuc n) = refl

integer_or_null-optional : (o : Option ℤ) → optional_int (integer_or_null o) ≡ o
integer_or_null-optional none = refl
integer_or_null-optional (some i) = integer-optional i

-- Every state that is written is read back.
pub readiness_round_trip :
    (s : BackendReadinessState)
    → read_backend_readiness_state (write_backend_readiness_state s) ≡ some s
unfolding read_backend_readiness_state write_backend_readiness_state state_from_payload state_fields
    get get_or
readiness_round_trip s =
    rw
      (
        bool_or_null-none s.ready,
        text_or_null-as s.checked_at,
        text_or_null-as s.last_success_at,
        integer-optional s.consecutive_failures,
        text_or_null-optional s.failure_kind,
        text_or_null-optional s.failure_code,
        text_or_null-optional s.failure_message,
        integer_or_null-optional s.failure_status_code,
        text_or_null-optional s.credential_type,
        text_or_null-optional s.refresh_state,
      )
      refl

module _ (iso : IsoFormat) where
  -- What a ready verdict rests on.
  pub record IsAvailable (settings : ReadinessSettings) (s : BackendReadinessState) (now : ℕ)
      : Type 0 where
    pub checked : ℕ
    pub parsed : parse_datetime iso s.checked_at ≡ some checked
    pub not_ahead : checked ≤ now + clock_anomaly_tolerance
    pub not_stale : (now - checked) / 1_000_000 ≤ settings.state_stale_after_seconds
    pub no_auth_failure : s.bypass_grace ≡ false
    pub succeeded : is_some s.last_success_at ≡ true
    pub below : at_least settings.failure_threshold s.consecutive_failures ≡ false

  reason_none :
      (settings : ReadinessSettings) (s : BackendReadinessState) (checked now : ℕ)
      → parse_datetime iso s.checked_at ≡ some checked
      → readiness_unavailable_reason s settings checked now ≡ none
      → IsAvailable settings s now
  unfolding readiness_unavailable_reason
  reason_none settings s checked now p e = record {
    checked = checked;
    parsed = p;
    not_ahead = ground (arith, e);
    not_stale = ground (arith, e);
    no_auth_failure = ground (arith, e);
    succeeded = has_success s.last_success_at (ground (arith, e));
    below = ground (arith, e);
  }
    where
      has_success : (o : Option String) → is_none o ≡ false → is_some o ≡ true
      has_success none h = absurd (cc h)
      has_success (some t) h = refl

  none_reason :
      (settings : ReadinessSettings) (s : BackendReadinessState) (now : ℕ)
      → (a : IsAvailable settings s now)
      → readiness_unavailable_reason s settings a.checked now ≡ none
  unfolding readiness_unavailable_reason
  none_reason settings s now a = ground (
    arith,
    a.not_ahead,
    a.not_stale,
    a.no_auth_failure,
    a.below,
    not_none s.last_success_at a.succeeded,
  )
    where
      not_none : (o : Option String) → is_some o ≡ true → is_none o ≡ false
      not_none none h = absurd (cc h)
      not_none (some t) h = refl

  ready_for :
      (settings : ReadinessSettings) (s : BackendReadinessState) (o : Option String)
      → ((verdict_for iso s settings o).ready ≡ true) ↔ (o ≡ none)
  unfolding verdict_for
  ready_for settings s none = (λ h. refl, λ h. refl)
  ready_for settings s (some r) = (λ h. absurd (cc h), λ h. absurd (cc h))

  ready_at :
      (settings : ReadinessSettings) (s : BackendReadinessState) (now : ℕ) (o : Option ℕ)
      → parse_datetime iso s.checked_at ≡ o
      → ((verdict_at iso s settings now o).ready ≡ true) ↔ IsAvailable settings s now
  unfolding verdict_at verdict_for
  ready_at settings s now none p = (λ h. absurd (cc h), λ a. absurd (cc (p, a.parsed)))
  ready_at settings s now (some checked) p =
      let by_reason = ready_for settings s (readiness_unavailable_reason s settings checked now) in
      (
        λ h. reason_none settings s checked now p (by_reason.0 h),
        λ a. by_reason.1 (
            subst (λ t. readiness_unavailable_reason s settings t now ≡ none) (cc (p, a.parsed))
              (none_reason settings s now a)),
      )

  -- With readiness enabled, a backend whose state can be read is ready exactly if its last check can
  -- be read, is not ahead of the clock by more than the tolerance and is not stale, no failure of it
  -- passes over the grace, it has succeeded once, and its failures since then are below the threshold.
  pub readiness_verdict_iff :
      (settings : ReadinessSettings) (file : Option Json) (s : BackendReadinessState) (now : ℕ)
      → settings.enabled ≡ true
      → read_backend_readiness_state file ≡ some s
      → ((readiness_verdict iso settings file now).ready ≡ true) ↔ IsAvailable settings s now
  unfolding readiness_verdict verdict_of
  readiness_verdict_iff settings file s now on r =
      subst
        (λ b.
          ((if not b
              then verdict true none none
              else verdict_of iso settings now (read_backend_readiness_state file)).ready
            ≡ true)
          ↔ IsAvailable settings s now)
        (sym on)
        (subst (λ o. ((verdict_of iso settings now o).ready ≡ true) ↔ IsAvailable settings s now)
          (sym r) (ready_at settings s now (parse_datetime iso s.checked_at) refl))

  -- The state after a sequence of probes, the last one first, each with its time.
  unfoldable pub after_probes :
      BackendReadinessState → List (BackendReadinessProbe × ℕ) → BackendReadinessState
  unfolding state_after_probe
  after_probes s [] = s
  after_probes s ((p, t) ∷ ps) = state_after_probe iso (after_probes s ps) p t

  -- Probes that fail, and pass over no grace.
  abbrev pub AllFail : List (BackendReadinessProbe × ℕ) → Type 0
  AllFail [] = Unit
  AllFail ((p, t) ∷ ps) = (p.ready ≡ false) × (p.bypass_grace ≡ false) × AllFail ps

  -- The time of the last probe.
  abbrev pub last_time : ℕ → List (BackendReadinessProbe × ℕ) → ℕ
  last_time t [] = t
  last_time t ((p, u) ∷ ps) = u

  -- What the state after a success and failures holds.
  record Graced (start last failures : ℕ) (s : BackendReadinessState) : Type 0 where
    checked : s.checked_at ≡ some (iso.isoformat last)
    success : s.last_success_at ≡ some (iso.isoformat start)
    count : s.consecutive_failures ≡ pos failures
    kept : s.bypass_grace ≡ false

  probes-Graced :
      (s : BackendReadinessState) (p : BackendReadinessProbe) (start : ℕ)
      (ps : List (BackendReadinessProbe × ℕ))
      → p.ready ≡ true
      → AllFail ps
      → Graced start
          (last_time start ps)
          (length ps)
          (after_probes (state_after_probe iso s p start) ps)
  unfolding after_probes state_after_probe
  probes-Graced s p start [] r f =
      rw r (record { checked = refl; success = refl; count = refl; kept = refl })
  probes-Graced s p start ((q, t) ∷ ps) r (fails, graced, rest) =
      let g = probes-Graced s p start ps r rest in
      rw fails
        (record { checked = refl; success = g.success; count = ap sucℤ g.count; kept = graced })

  parsed_back : (t : ℕ) → parse_datetime iso (some (iso.isoformat t)) ≡ some t
  unfolding parse_datetime
  parsed_back t = ap (in_utc iso) (iso.fromisoformat-isoformat t)

  -- After a success and then failures that pass over no grace, however many, a check that is not ahead
  -- of the clock and not stale finds the backend ready exactly while the failures are fewer than the
  -- threshold.
  pub readiness_grace :
      (settings : ReadinessSettings) (s : BackendReadinessState) (p : BackendReadinessProbe)
      (start : ℕ) (ps : List (BackendReadinessProbe × ℕ)) (now : ℕ)
      → settings.enabled ≡ true
      → p.ready ≡ true
      → AllFail ps
      → last_time start ps ≤ now + clock_anomaly_tolerance
      → (now - last_time start ps) / 1_000_000 ≤ settings.state_stale_after_seconds
      → let after = after_probes (state_after_probe iso s p start) ps in
        ((readiness_verdict iso settings (write_backend_readiness_state after) now).ready ≡ true)
        ↔ (length ps < settings.failure_threshold)
  readiness_grace settings s p start ps now on r f ahead stale =
      let after = after_probes (state_after_probe iso s p start) ps in
      let g = probes-Graced s p start ps r f in
      let verdict =
        readiness_verdict_iff settings (write_backend_readiness_state after) after now on
          (readiness_round_trip after) in
      (
        λ h. ground (
          arith,
          subst (λ c. at_least settings.failure_threshold c ≡ false) g.count (verdict.0 h).below,
        ),
        λ h. verdict.1 (record {
          checked = last_time start ps;
          parsed = ap (parse_datetime iso) g.checked ∙ parsed_back (last_time start ps);
          not_ahead = ahead;
          not_stale = stale;
          no_auth_failure = g.kept;
          succeeded = ap is_some g.success;
          below =
              subst (λ c. at_least settings.failure_threshold c ≡ false) (sym g.count)
                (ground (arith, h));
        }),
      )
