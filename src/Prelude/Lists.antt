-- ===== src/Prelude/Lists.antt =====
-- The length of a list as a native number, and membership by a Boolean test.
use Prim.Native.Nat.{ℕ, suc, ◌+◌}
use mathlib.Core.Path.{◌≡◌, refl, sym, ap}
use enji_guard_cli.Prelude.Tests.{if◌then◌else◌, Bool-cases}
use mathlib.Core.Logic.{◌⊎◌, inl, inr}
use mathlib.Core.Bool.{Bool, true, false, ◌||◌}
use mathlib.Core.List.{List, [], ◌∷◌, ◌++◌}
use native.Mathlib.Omega.{arith}

module _ {ℓ} {A : Type ℓ} where
  abbrev pub length : List A → ℕ
  length [] = 0
  length (_ ∷ xs) = suc (length xs)

  abbrev pub any : (A → Bool) → List A → Bool
  any p [] = false
  any p (x ∷ xs) = p x || any p xs

  pub length-append : (xs ys : List A) → length (xs ++ ys) ≡ length xs + length ys
  length-append [] ys = omega arith
  length-append (x ∷ xs) ys = omega (arith, length-append xs ys)

  pub any-append : (p : A → Bool) (xs ys : List A) → any p (xs ++ ys) ≡ (any p xs || any p ys)
  any-append p [] ys = ground arith
  any-append p (x ∷ xs) ys = ground (arith, any-append p xs ys)

  -- A comprehension with a condition, `[x for x in xs if p(x)]`.
  abbrev pub filter_by : (A → Bool) → List A → List A
  filter_by p [] = []
  filter_by p (x ∷ xs) = if p x then x ∷ filter_by p xs else filter_by p xs

  -- Membership that says where.
  pub data In (x : A) : List A → Type ℓ where
    here : {xs : List A} → In x (x ∷ xs)
    there : {y : A} {xs : List A} → In x xs → In x (y ∷ xs)

  pub filter_by-all :
      (p : A → Bool) (xs : List A) → ((x : A) → In x xs → p x ≡ true) → filter_by p xs ≡ xs
  filter_by-all p [] h = refl
  filter_by-all p (x ∷ xs) h =
      rw (h x here) (ap (λ l. x ∷ l) (filter_by-all p xs (λ y m. h y (there m))))

  pub filter_by-inverse :
      (p : A → Bool) (xs : List A) {x : A} → In x (filter_by p xs) → In x xs × (p x ≡ true)
  filter_by-inverse p [] = λ m. absurd (elim m [ ])
  filter_by-inverse p (y ∷ ys) = if_kept (p y) refl (filter_by-inverse p ys)
    where
      if_kept :
          (b : Bool) {x : A}
          → p y ≡ b
          → (In x (filter_by p ys) → In x ys × (p x ≡ true))
          → In x (if b then y ∷ filter_by p ys else filter_by p ys)
          → In x (y ∷ ys) × (p x ≡ true)
      if_kept true e rest here = (here, e)
      if_kept true e rest (there m) = let (n, q) = rest m in (there n, q)
      if_kept false e rest m = let (n, q) = rest m in (there n, q)

  pub filter_by-In : (p : A → Bool) (xs : List A) {x : A} → In x (filter_by p xs) → In x xs
  filter_by-In p xs m = (filter_by-inverse p xs m).0

  pub append-In : (xs ys : List A) {x : A} → In x (xs ++ ys) → In x xs ⊎ In x ys
  append-In [] ys m = inr m
  append-In (y ∷ xs) ys here = inl here
  append-In (y ∷ xs) ys (there m) = elim (append-In xs ys m) [
    | inl n ↦ inl (there n)
    | inr n ↦ inr n
  ]

  pub filter_by-kept :
      (p : A → Bool) {x : A} {xs : List A} → In x xs → p x ≡ true → In x (filter_by p xs)
  filter_by-kept p here h = rw h here
  filter_by-kept p (there {y = y} m) h = behind (p y) y (filter_by-kept p m h)
    where
      behind : (b : Bool) (y : A) {x : A} {ys : List A} → In x ys → In x (if b then y ∷ ys else ys)
      behind true y n = there n
      behind false y n = n

  pub any-In : (p : A → Bool) (xs : List A) → any p xs ≡ true → (x : A) × In x xs × (p x ≡ true)
  any-In p (x ∷ xs) h = elim (Bool-cases (p x)) [
    | inl e ↦ (x, here, e)
    | inr e ↦ let (y, m, q) = any-In p xs (rw (sym h) (rw e refl)) in (y, there m, q)
  ]
  any-In p [] h = absurd (cc h)

  pub In-left : {x : A} {xs : List A} (ys : List A) → In x xs → In x (xs ++ ys)
  In-left ys here = here
  In-left ys (there m) = there (In-left ys m)

  pub In-right : (xs : List A) {x : A} {ys : List A} → In x ys → In x (xs ++ ys)
  In-right [] m = m
  In-right (y ∷ xs) m = there (In-right xs m)

  pub In-single : {x y : A} → In x (y ∷ []) → y ≡ x
  In-single here = refl
  In-single (there m) = elim m [ ]
