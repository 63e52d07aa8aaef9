-- ===== src/Base/Ratio.antt =====
-- Fractions compared by cross multiplication, for the rates that the program keeps as doubles.
use Prim.Native.Nat.{ℕ, ◌*◌}
use mathlib.Core.Bool.{Bool}
use routiq.Base.Tests.{leb}

pub record Ratio : Type 0 where
  pub top : ℕ
  pub bottom : ℕ

abbrev pub leb_ratio : Ratio → Ratio → Bool
leb_ratio a b = leb (a.top * b.bottom) (b.top * a.bottom)

abbrev pub whole : ℕ → Ratio
whole n = record { top = n; bottom = 1 }
