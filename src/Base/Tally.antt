-- ===== src/Base/Tally.antt =====
-- Numbers as tallies, for the tests.
use Prim.Native.String.{String}
use mathlib.Core.Path.{◌≡◌, refl, ap}
use mathlib.Core.Bool.{false}
use mathlib.Core.Option.{Option, none, some}
use Prim.Native.Nat.{ℕ, zero, suc}
use deepiri_zepgpu.Base.Tests.{string_eq, ◌==◌, beq_false}

unfoldable pub tally : ℕ → String
tally zero = "#"
tally (suc n) = String.◌∷◌ "i" (tally n)

marks : String → ℕ
marks String.[] = zero
marks (String.◌∷◌ c s) = suc (marks s)

unfoldable pub untally : String → Option ℕ
unfolding marks
untally String.[] = none
untally (String.◌∷◌ c s) = some (marks s)

marks-tally : (n : ℕ) → marks (tally n) ≡ suc n
unfolding marks tally
marks-tally zero = refl
marks-tally (suc n) = ap suc (marks-tally n)

pub untally-tally : (n : ℕ) → untally (tally n) ≡ some n
unfolding untally tally
untally-tally zero = refl
untally-tally (suc n) = ap some (marks-tally n)

pub tally-filled : (n : ℕ) → (tally n == "") ≡ false
unfolding tally
tally-filled zero = refl
tally-filled (suc n) = beq_false (String.◌∷◌ "i" (tally n)) "" (λ e. cc)
