-- ===== src/Timestamps.antt =====
-- ISO 8601 timestamps. `datetime.fromisoformat` and `datetime.isoformat` are Python's: the model
-- takes them as a parameter. An aware datetime is its instant, in microseconds, and whether its
-- offset is zero; a naive one the instant that it names in UTC. The code reads nothing else of it.
use enji_guard_cli.Prelude.{
  false, ◌=s◌, Bool-cases, inl, inr, ◌⧺◌, arith, ◌*◌, ◌≤◌, ◌==◌, ℕ, zero, suc, ◌+◌, ◌≡◌, ap, String,
  Bool, true, Option, none, some, if◌then◌else◌,
}
use Prim.Native.String.compare
use Prim.Native.Char.{Char, code}
use Prim.Native.Nat.{◌/◌, ◌%◌}
use text.Mathlib.TextLemmas.{nil-append, cons-append}
use Prim.Native.String.{◌∷◌ as ◌◂◌, [] as empty}

pub data Datetime : Type 0 where
  naive : ℕ → Datetime
  aware : Bool → ℕ → Datetime

-- `fromisoformat` answers `none` where it raises `ValueError`. The laws are the documented ones
-- for an instant in UTC: its text is not empty, and is read back.
pub record IsoFormat : Type 0 where
  pub fromisoformat : String → Option Datetime
  pub isoformat : ℕ → String
  pub isoformat_named : (t : ℕ) → (isoformat t =s "") ≡ false
  pub fromisoformat-isoformat : (t : ℕ) → fromisoformat (isoformat t) ≡ some (aware true t)

-- The instant of an aware datetime.
abbrev pub instant : Option Datetime → Option ℕ
instant (some (aware _ t)) = some t
instant _ = none

-- A concrete format, binary digits from the lowest, which meets the law.
bits : ℕ → ℕ → String
bits zero n = ""
bits (suc f) n =
    let rest = bits f (n / 2) in
    if n == 0 then "" else if n % 2 == 0 then "0" ⧺ rest else "1" ⧺ rest

abbrev stroke : Char
stroke = "T"

compare_cons : (s : String) → ((stroke ◂ s) =s "") ≡ false
compare_cons s = rw compare.cons-nil

value : String → ℕ
value empty = 0
value (c ◂ s) = (if code c == b'0' then 0 else 1) + 2 * value s

value-zero : (s : String) → value ("0" ⧺ s) ≡ 2 * value s
unfolding value
value-zero s = rw (cons-append _ empty s, nil-append) (omega arith)

value-one : (s : String) → value ("1" ⧺ s) ≡ 1 + 2 * value s
unfolding value
value-one s = rw (cons-append _ empty s, nil-append) (omega arith)

value-bits : (f n : ℕ) → n ≤ f → value (bits f n) ≡ n
unfolding bits value
value-bits zero n h = omega arith
value-bits (suc f) n h = elim (Bool-cases (n == 0)) [
  | inl e ↦ rw e (ground arith)
  | inr e ↦ rw e (elim (Bool-cases (n % 2 == 0)) [
    | inl o ↦ rw (o, value-zero) (ground (arith, value-bits f (n / 2)))
    | inr o ↦ rw (o, value-one) (ground (arith, value-bits f (n / 2)))
  ])
]

unfoldable pub digits : ℕ → String
unfolding bits
digits t = "T" ⧺ bits t t

digits_cons : (s : String) → ("T" ⧺ s) ≡ (stroke ◂ s)
digits_cons s = rw (cons-append stroke empty s, nil-append)

pub digits_named : (t : ℕ) → (digits t =s "") ≡ false
unfolding digits
digits_named t = rw (digits_cons (bits t t)) (compare_cons (bits t t))

unfoldable pub undigits : String → Option Datetime
unfolding value
undigits empty = none
undigits (c ◂ s) = some (aware true (value s))

pub undigits-digits : (t : ℕ) → undigits (digits t) ≡ some (aware true t)
unfolding undigits digits
undigits-digits t =
    rw (digits_cons (bits t t)) (ap (λ v. some (aware true v)) (value-bits t t (omega arith)))

abbrev pub binary_format : IsoFormat
binary_format = record {
  fromisoformat = undigits;
  isoformat = digits;
  isoformat_named = digits_named;
  fromisoformat-isoformat = undigits-digits;
}
