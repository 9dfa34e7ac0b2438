-- ===== src/Training/RestartTests.antt =====
-- A guard with one clean triple and one whose run has a bar, after a restart; rounds are tallies.
use deepiri_zepgpu.Base.Int.{ℤ, pos}
use deepiri_zepgpu.Base.Dict.{lookup}
use deepiri_zepgpu.Base.Tally.{tally, untally, untally-tally}
use deepiri_zepgpu.Base.{
  if◌then◌else◌, string_eq, nat_eq, ok, ℕ, zero, suc, String, ◌≡◌, refl, ap, Option, none, some, [],
  ◌∷◌,
}
use deepiri_zepgpu.Ledger.Json.{Conversions}
use deepiri_zepgpu.Training.Integrity.{Triple, triple_eq, ReplayGuard}
use deepiri_zepgpu.Training.Texts.{bars}
use deepiri_zepgpu.Training.FileGuard.{RoundTexts, load_guard, save_guard}
use deepiri_zepgpu.Training.Restart.{RoundLaws, has_bar, load_guard-save_guard}

abbrev no_texts : Conversions
no_texts = record { text_of = λ v. "?"; parse_float = λ s. none }

abbrev as_int : Option ℕ → Option ℤ
as_int none = none
as_int (some n) = some (pos n)

abbrev tallies : RoundTexts
tallies = record { round_text = tally; read_int = λ s. as_int (untally s) }

bars-tally : (n : ℕ) → bars (tally n) ≡ 0
unfolding tally
bars-tally zero = refl
bars-tally (suc n) = bars-tally n

tallies-RoundLaws : RoundLaws tallies
tallies-RoundLaws = record {
  bars-round_text = bars-tally;
  read_int-round_text = λ n. ap as_int (untally-tally n);
}

abbrev triple : String → Triple
triple run = record { run_id = run; round = 1; worker_id = "w" }

abbrev two_runs : ReplayGuard
two_runs = (triple "r", "mac") ∷ (triple "a|b", "other") ∷ []

load_guard-save_guard_example :
    (seen' : ReplayGuard) × (load_guard no_texts tallies (save_guard tallies two_runs) ≡ ok seen')
    × ((k : Triple) → lookup k seen' ≡ (if has_bar k then none else lookup k two_runs))
load_guard-save_guard_example =
    load_guard-save_guard no_texts tallies tallies-RoundLaws two_runs (refl, (refl, tt))

forgets-barred : (if has_bar (triple "a|b") then none else lookup (triple "a|b") two_runs) ≡ none
forgets-barred = refl
