-- ===== src/Prelude/Text.antt =====
-- Comparison of texts, under a name of its own.
use Prim.Native.String.{String}
use mathlib.Core.Path.{◌≡◌}
use mathlib.Core.Bool.{Bool, true}
use mathlib.Core.Logic.{◌↔◌}
use text.Mathlib.Text.{◌==◌}
pub use text.Mathlib.Text.{starts_with}
pub use text.Mathlib.TextPositions.{starts_with-append}
use text.Mathlib.TextEquality.{eq_iff}
use text.Mathlib.TextPositions.{eq_refl}

infix 50 ◌=s◌
abbrev pub ◌=s◌ : String → String → Bool
s =s t = s == t

pub =s_iff : (s t : String) → ((s =s t) ≡ true) ↔ (s ≡ t)
=s_iff = eq_iff

pub =s_refl : (s : String) → (s =s s) ≡ true
=s_refl = eq_refl
