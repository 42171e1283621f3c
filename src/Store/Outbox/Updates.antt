-- ===== src/Store/Outbox/Updates.antt =====
-- `enqueue_outcome` and `acknowledge_outcome` of auth_session/store.py, on the records.
use mathlib.Core.List.{append-nil, append_assoc}
use enji_guard_cli.Prelude.{
  =s_refl, subst, ◌∙◌, refl, =s_iff, Bool-cases, inl, inr, any-append, String, true, false, none,
  some, List, [], ◌∷◌, ◌++◌, ◌=s◌, ◌&&◌, ◌||◌, ◌≡◌, not, arith,
}
use enji_guard_cli.Store.{OutcomeOutboxRecord}
use enji_guard_cli.Store.Outbox.{has_key, enqueued, retained}
use enji_guard_cli.Store.Outbox.Laws.{IsKeyed, AllKeyed, Fresh, IsOutbox}

-- The records after `enqueue_outcome`, written or not.
abbrev pub after_enqueue : List OutcomeOutboxRecord → OutcomeOutboxRecord → List OutcomeOutboxRecord
after_enqueue rs r = elim (enqueued rs r) [ none ↦ rs | some written ↦ written ]

AllKeyed-append :
    (rs : List OutcomeOutboxRecord) (r : OutcomeOutboxRecord)
    → AllKeyed rs
    → IsKeyed r
    → AllKeyed (rs ++ r ∷ [])
AllKeyed-append [] r k h = (h, tt)
AllKeyed-append (x ∷ rs) r k h = (k.0, AllKeyed-append rs r k.1 h)

Fresh-append :
    (seen rs : List OutcomeOutboxRecord) (r : OutcomeOutboxRecord)
    → Fresh seen rs
    → has_key r.event_key (seen ++ rs) ≡ false
    → Fresh seen (rs ++ r ∷ [])
Fresh-append seen [] r f h = (rw append-nil at h, tt)
Fresh-append seen (x ∷ rs) r f h = (f.0, Fresh-append (seen ++ x ∷ []) rs r f.1 (rw append_assoc h))

has_key-enqueued :
    (k : String) (rs : List OutcomeOutboxRecord) (r : OutcomeOutboxRecord)
    → has_key k (rs ++ r ∷ []) ≡ (has_key k rs || r.event_key =s k)
has_key-enqueued k rs r = any-append (λ x. x.event_key =s k) rs (r ∷ []) ∙ ground arith

has_key_self :
    (rs : List OutcomeOutboxRecord) (r : OutcomeOutboxRecord)
    → has_key r.event_key (rs ++ r ∷ []) ≡ true
has_key_self rs r = has_key-enqueued r.event_key rs r ∙ rw =s_refl (ground arith)

has_key-old :
    (rs : List OutcomeOutboxRecord) (r : OutcomeOutboxRecord)
    → has_key r.event_key rs ≡ true
    → (k : String) → has_key k rs ≡ (has_key k rs || r.event_key =s k)
has_key-old rs r old k = elim (Bool-cases (r.event_key =s k)) [
  | inl e ↦
      let there : has_key k rs ≡ true =
        subst (λ x. has_key x rs ≡ true) ((=s_iff r.event_key k).0 e) old in
      rw there
  | inr e ↦ rw e (ground arith)
]

after_enqueue_old :
    (rs : List OutcomeOutboxRecord) (r : OutcomeOutboxRecord)
    → has_key r.event_key rs ≡ true
    → after_enqueue rs r ≡ rs
unfolding enqueued
after_enqueue_old rs r old = rw (old, after_enqueue)

after_enqueue_new :
    (rs : List OutcomeOutboxRecord) (r : OutcomeOutboxRecord)
    → has_key r.event_key rs ≡ false
    → after_enqueue rs r ≡ rs ++ r ∷ []
unfolding enqueued
after_enqueue_new rs r new = rw (new, after_enqueue)

-- Enqueuing a record with the key of its outcome keeps a well-formed outbox well formed, leaves
-- its key there, and changes no other key.
pub enqueue_outcome_lem :
    (rs : List OutcomeOutboxRecord) (r : OutcomeOutboxRecord)
    → IsOutbox rs
    → IsKeyed r
    → IsOutbox (after_enqueue rs r)
      × (has_key r.event_key (after_enqueue rs r) ≡ true)
      × ((k : String) → has_key k (after_enqueue rs r) ≡ (has_key k rs || r.event_key =s k))
enqueue_outcome_lem rs r v h = elim (Bool-cases (has_key r.event_key rs)) [
  | inl old ↦ rw (after_enqueue_old rs r old) (v, old, has_key-old rs r old)
  | inr new ↦ rw (after_enqueue_new rs r new) (
    record { keyed = AllKeyed-append rs r v.keyed h; unique = Fresh-append [] rs r v.unique new },
    has_key_self rs r,
    λ k. has_key-enqueued k rs r,
  )
]

-- Acknowledging removes the records of its key, and only those.
pub has_key-retained :
    (k key : String) (rs : List OutcomeOutboxRecord)
    → has_key k (retained key rs) ≡ (has_key k rs && not (key =s k))
unfolding retained
has_key-retained k key [] = refl
has_key-retained k key (r ∷ rs) =
    ground
      (arith, has_key-retained k key rs, =s_iff r.event_key key, =s_iff r.event_key k, =s_iff key k)

AllKeyed-retained :
    (key : String) (rs : List OutcomeOutboxRecord) → AllKeyed rs → AllKeyed (retained key rs)
unfolding retained
AllKeyed-retained key [] k = k
AllKeyed-retained key (r ∷ rs) k = elim (Bool-cases (r.event_key =s key)) [
  | inl e ↦ rw e (AllKeyed-retained key rs k.1)
  | inr e ↦ rw e (k.0, AllKeyed-retained key rs k.1)
]

-- Fewer keys seen leave a list as fresh.
abbrev Fewer : List OutcomeOutboxRecord → List OutcomeOutboxRecord → Type 0
Fewer xs ys = (k : String) → has_key k ys ≡ false → has_key k xs ≡ false

Fewer-append :
    (xs ys : List OutcomeOutboxRecord) (r : OutcomeOutboxRecord)
    → Fewer xs ys
    → Fewer (xs ++ r ∷ []) (ys ++ r ∷ [])
Fewer-append xs ys r s k h = has_key-enqueued k xs r ∙ ground (arith, s k, has_key-enqueued k ys r)

Fewer-append_left :
    (xs ys : List OutcomeOutboxRecord) (r : OutcomeOutboxRecord)
    → Fewer xs ys
    → Fewer xs (ys ++ r ∷ [])
Fewer-append_left xs ys r s k h = ground (arith, s k, has_key-enqueued k ys r)

Fresh-retained :
    (key : String) (xs ys rs : List OutcomeOutboxRecord)
    → Fewer xs ys
    → Fresh ys rs
    → Fresh xs (retained key rs)
unfolding retained
Fresh-retained key xs ys [] s f = f
Fresh-retained key xs ys (r ∷ rs) s f = elim (Bool-cases (r.event_key =s key)) [
  | inl e ↦ rw e (Fresh-retained key xs (ys ++ r ∷ []) rs (Fewer-append_left xs ys r s) f.1)
  | inr e ↦ rw e (
    s r.event_key f.0,
    Fresh-retained key (xs ++ r ∷ []) (ys ++ r ∷ []) rs (Fewer-append xs ys r s) f.1,
  )
]

-- Acknowledging keeps a well-formed outbox well formed.
pub retained-IsOutbox :
    (key : String) (rs : List OutcomeOutboxRecord) → IsOutbox rs → IsOutbox (retained key rs)
retained-IsOutbox key rs v = record {
  keyed = AllKeyed-retained key rs v.keyed;
  unique = Fresh-retained key [] [] rs (λ k h. h) v.unique;
}
