-- ===== src/Audit/Waiting/Ends.antt =====
-- The wait for the audits of a repository ends, in the first round whose reading settles it.
use enji_guard_cli.Prelude.{◌<◌, sym, subst, ◌⊎◌, ltb}
use enji_guard_cli.Prelude.{◌+◌, ◌*◌, refl, ap, Option, Option-cases}
use enji_guard_cli.Polling.{Sleeps, polling-Ends}
use enji_guard_cli.Audit.Waiting.{
  AuditWaitOptions, beat_first, with_beat, wait_loop, WaitTimes, validate_wait_options,
  wait_for_completion,
}
use enji_guard_cli.Audit.Lifecycle.{later}
use enji_guard_cli.Prelude.{
  ℕ, suc, ◌≤◌, String, ◌≡◌, ◌≢◌, inl, inr, Bool, true, false, not, ◌&&◌, ◌||◌, none, some, List,
  ◌∷◌, arith, leb, if◌then◌else◌, Bool-cases, any, In, here, there, [],
}
use enji_guard_cli.Audit.{AuditStatusItem, AuditStatus}
use enji_guard_cli.Audit.Waiting.{
  unread, returned, WaitReason, AuditWaitResult, is_active_item, is_missing_item, is_failed_item,
  is_complete, wait_result, AuditWaitDependencies, WaitEnd, is_final,
}

lt-suc-cases : (j k : ℕ) → j < suc k → (j < k) ⊎ (j ≡ k)
lt-suc-cases j k h = elim (Bool-cases (ltb j k)) [
  | inl e ↦ inl (ground (arith, e))
  | inr e ↦ inr (ground (arith, e, h))
]

none_of :
    {A : Type 0} (p : A → Bool) (xs : List A) → any p xs ≡ false → (x : A) → In x xs → p x ≡ false
none_of p [] h x m = elim m [ ]
none_of p (x ∷ xs) h _ here = elim (Bool-cases (p x)) [
  | inl e ↦ absurd (ground (arith, e, h))
  | inr e ↦ e
]
none_of p (x ∷ xs) h y (there m) = none_of p xs (ground (arith, h)) y m

module _ (d : AuditWaitDependencies) (repo : String) (started deadline : ℕ) where
  -- The result of a round, if it reads this status.
  abbrev pub result_at : ℕ → AuditStatus → AuditWaitResult
  unfolding wait_result
  result_at k s =
      wait_result repo s started (leb deadline (d.monotonic (suc k))) (d.monotonic (suc k))

  -- A round that is to be followed by another one: it reads a status whose only result is to wait,
  -- before the deadline.
  pub record IsUnsettled (k : ℕ) : Type 0 where
    pub status : AuditStatus
    pub was_read : d.read_status k ≡ some status
    pub waits : (result_at k status).reason ≡ WaitReason.waiting
    pub early : d.monotonic (suc k) < deadline

  -- A result that the wait may return: that of the status read in the first round that settles the
  -- wait, of another reason than the wait itself, complete only if every audit is readable and none
  -- is active or failed, and timed out only after the deadline.
  pub record IsResult (r : AuditWaitResult) : Type 0 where
    pub round : ℕ
    pub earlier : (j : ℕ) → j < round → IsUnsettled j
    pub was_read : d.read_status round ≡ some r.status
    pub of_round : r ≡ result_at round r.status
    pub settled : r.reason ≢ WaitReason.waiting
    pub all_done :
        r.complete ≡ true
        → (i : AuditStatusItem) → In i r.status.items
        → (i.can_read ≡ true) × (is_active_item i ≡ false) × (is_failed_item i ≡ false)
    pub late : r.timed_out ≡ true → deadline ≤ d.monotonic (suc round)

  pub data IsWaitEnd : WaitEnd → Type 0 where
    result_end :
        (r : AuditWaitResult) (beats : List AuditWaitResult)
        → IsResult r
        → IsWaitEnd (returned r beats)
    unread_end :
        (k : ℕ) (beats : List AuditWaitResult)
        → ((j : ℕ) → j < k → IsUnsettled j)
        → d.read_status k ≡ none
        → IsWaitEnd (unread beats)

  unsettled :
      (k : ℕ) (s : AuditStatus)
      → d.read_status k ≡ some s
      → ((result_at k s).complete
          || is_final (result_at k s).reason
          || leb deadline (d.monotonic (suc k)))
        ≡ false
      → IsUnsettled k
  unfolding wait_result is_complete
  unsettled k s e h = record {
    status = s;
    was_read = e;
    waits =
        by_tests (any is_failed_item s.items) (leb deadline (d.monotonic (suc k)))
          (any is_active_item s.items) (any is_missing_item s.items) h;
    early = ground (arith, h);
  }
    where
      by_tests :
          (failed late active missing : Bool)
          → let reason =
              if failed
              then WaitReason.failed_run
              else if late
              then WaitReason.timeout
              else if active
              then WaitReason.waiting
              else if missing
              then WaitReason.missing_report
              else WaitReason.all_complete in
            ((not active && not missing && not failed) && not late || is_final reason || late)
              ≡ false
            → reason ≡ WaitReason.waiting
      by_tests true late active missing h = absurd (ground (arith, h))
      by_tests false true active missing h = absurd (ground (arith, h))
      by_tests false false true missing h = refl
      by_tests false false false true h = absurd (ground (arith, h))
      by_tests false false false false h = absurd (ground (arith, h))

  not_waiting :
      (s : AuditStatus) (late : Bool) (now : ℕ)
      → let r = wait_result repo s started late now in
        (r.complete || is_final r.reason || late) ≡ true → r.reason ≢ WaitReason.waiting
  unfolding wait_result is_complete
  not_waiting s late now h w =
      by_tests (any is_failed_item s.items) late (any is_active_item s.items)
        (any is_missing_item s.items) h w
    where
      by_tests :
          (failed late active missing : Bool)
          → let reason =
              if failed
              then WaitReason.failed_run
              else if late
              then WaitReason.timeout
              else if active
              then WaitReason.waiting
              else if missing
              then WaitReason.missing_report
              else WaitReason.all_complete in
            ((not active && not missing && not failed) && not late || is_final reason || late)
              ≡ true
            → reason ≡ WaitReason.waiting
            → ⊥
      by_tests true late active missing h w = absurd (cc w)
      by_tests false true active missing h w = absurd (cc w)
      by_tests false false true missing h w = absurd (cc h)
      by_tests false false false true h w = absurd (cc w)
      by_tests false false false false h w = absurd (cc w)

  complete_items :
      (s : AuditStatus)
      → is_complete s ≡ true
      → (i : AuditStatusItem) → In i s.items
      → (i.can_read ≡ true) × (is_active_item i ≡ false) × (is_failed_item i ≡ false)
  unfolding is_complete
  complete_items s h i m = (
    ground (arith, none_of is_missing_item s.items (ground (arith, h)) i m),
    none_of is_active_item s.items (ground (arith, h)) i m,
    none_of is_failed_item s.items (ground (arith, h)) i m,
  )

  wait_result-IsResult :
      (k : ℕ) (s : AuditStatus)
      → ((j : ℕ) → j < k → IsUnsettled j)
      → d.read_status k ≡ some s
      → let now = d.monotonic (suc k) in
        let r = wait_result repo s started (leb deadline now) now in
        (r.complete || is_final r.reason || leb deadline now) ≡ true → IsResult r
  unfolding wait_result
  wait_result-IsResult k s before e h = record {
    round = k;
    earlier = before;
    was_read = e;
    of_round = refl;
    settled = not_waiting s (leb deadline (d.monotonic (suc k))) (d.monotonic (suc k)) h;
    all_done = λ c. complete_items s (ground (arith, c));
    late = λ l. ground (arith, l);
  }

  module _ (beats : Bool) (heartbeat : ℕ) where
    Ends : ℕ → ℕ → Type 0
    Ends f k =
        (beat : ℕ)
        → ((j : ℕ) → j < k → IsUnsettled j)
        → (e : WaitEnd) × (wait_loop f d repo beats heartbeat started deadline beat k ≡ some e)
          × IsWaitEnd e

    beaten : (b : AuditWaitResult) (e : WaitEnd) → IsWaitEnd e → IsWaitEnd (beat_first b e)
    beaten b (returned r later) (result_end _ _ h) = result_end r (b ∷ later) h
    beaten b (unread later) (unread_end k _ j h) = unread_end k (b ∷ later) j h

    with_beat_end :
        (due : Bool) (b : AuditWaitResult) (m : Option WaitEnd) (e : WaitEnd)
        → m ≡ some e
        → IsWaitEnd e
        → (x : WaitEnd) × (with_beat due b m ≡ some x) × IsWaitEnd x
    with_beat_end false b m e h w = (e, h, w)
    with_beat_end true b m e h w = (beat_first b e, rw h refl, beaten b e w)

    unread_now : (f k : ℕ) → d.read_status k ≡ none → Ends (suc f) k
    unfolding Ends wait_loop
    unread_now f k n beat before = (unread [], rw (n, wait_loop) refl, unread_end k [] before n)

    one_more :
        (k : ℕ)
        → ((j : ℕ) → j < k → IsUnsettled j)
        → IsUnsettled k
        → (j : ℕ) → j < suc k
        → IsUnsettled j
    one_more k before u j h = elim (lt-suc-cases j k h) [
      | inl l ↦ before j l
      | inr e ↦ subst IsUnsettled (sym e) u
    ]

    read_now :
        (f k : ℕ) (s : AuditStatus)
        → d.read_status k ≡ some s
        → (leb deadline (d.monotonic (suc k)) ≡ false → Ends f (suc k))
        → Ends (suc f) k
    unfolding Ends wait_loop
    read_now f k s n rest beat before =
        let now = d.monotonic (suc k) in
        let r = wait_result repo s started (leb deadline now) now in
        let due = beats && leb beat now in
        elim (Bool-cases (r.complete || is_final r.reason || leb deadline now)) [
          | inl c ↦ (
            returned r [],
            rw (n, wait_loop) (rw c refl),
            result_end r [] (wait_result-IsResult k s before n c),
          )
          | inr c ↦
              let (e, g, w) =
                rest (ground (arith, c)) (if due then beat + heartbeat else beat)
                  (one_more k before (unsettled k s n c)) in
              let (x, h, v) = with_beat_end due r _ e g w in (x, rw (n, wait_loop) (rw c h), v)
        ]

    round_end :
        (f k : ℕ) → (leb deadline (d.monotonic (suc k)) ≡ false → Ends f (suc k)) → Ends (suc f) k
    round_end f k rest = elim (Option-cases (d.read_status k)) [
      | inl n ↦ unread_now f k n
      | inr (s, n) ↦ read_now f k s n rest
    ]

-- With options that are valid, and a clock that keeps the sleeps, the wait ends after at most one
-- round more than the polls that its time has room for: with the error of a reading, or with the
-- result of the status that it read, whose reason is not that it waits, that is complete only if every
-- audit is readable and none is active or failed, and that is timed out only after the deadline.
-- Every round before was before the deadline and read a status whose result was to wait.
pub wait_for_completion_ends :
    (d : AuditWaitDependencies) (repo : String) (options : AuditWaitOptions) (beats : Bool)
    (t : WaitTimes) (f : ℕ)
    → validate_wait_options options ≡ some t
    → Sleeps t.poll (d.monotonic 0 + t.timeout) d.monotonic
    → t.timeout ≤ t.poll * f
    → (e : WaitEnd) × (wait_for_completion (suc f) d repo options beats ≡ some (some e))
      × IsWaitEnd d repo (d.monotonic 0) (d.monotonic 0 + t.timeout) e
unfolding wait_for_completion Ends
wait_for_completion_ends d repo options beats t f v h n =
    let started = d.monotonic 0 in
    let deadline = started + t.timeout in
    let (e, g, w) =
      polling-Ends t.poll deadline d.monotonic h (Ends d repo started deadline beats t.heartbeat)
        (round_end d repo started deadline beats t.heartbeat) t.timeout f refl n started
        (λ j l. absurd (omega (arith, l))) in
    (e, rw v (ap some g), w)
