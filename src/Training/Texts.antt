-- ===== src/Training/Texts.antt =====
-- Python's `split("|")` and `split("|mac=", 1)[1]` of the texts of deepiri_zepgpu/training/integrity.py.
use Prim.Native.String.{◌++◌ as ◌+ₛ◌}
use Prim.Native.Char.{Char, code}
use Prim.Native.String.append as Appended
use deepiri_zepgpu.Base.{
  if◌then◌else◌, string_eq, nat_eq, ◌==◌, Bool-cases, length, ℕ, suc, ◌+◌, String, ◌≡◌, refl, ap,
  ◌∙◌, inl, inr, Bool, Option, none, some, List, [], ◌∷◌, arith,
}

abbrev pub is_bar : Char → Bool
is_bar c = code c == 124

-- The number of bars in a text.
abbrev pub bars : String → ℕ
bars String.[] = 0
bars (String.◌∷◌ c s) = if is_bar c then suc (bars s) else bars s

-- A character put before the first part.
abbrev pub join_first : Char → List String → List String
join_first c [] = []
join_first c (part ∷ parts) = String.◌∷◌ c part ∷ parts

-- `s.split("|")`
unfoldable pub split_bar : String → List String
split_bar String.[] = "" ∷ []
split_bar (String.◌∷◌ c s) = if is_bar c then "" ∷ split_bar s else join_first c (split_bar s)

pub bars-append : (s t : String) → bars (s +ₛ t) ≡ bars s + bars t
bars-append String.[] t = rw (Appended.nil t) (omega arith)
bars-append (String.◌∷◌ c s) t = elim (Bool-cases (is_bar c)) [
  | inl bar ↦ rw (Appended.cons c s t, bar) (omega (arith, bars-append s t))
  | inr other ↦ rw (Appended.cons c s t, other) (bars-append s t)
]

length-join_first : (c : Char) (parts : List String) → length (join_first c parts) ≡ length parts
length-join_first c [] = refl
length-join_first c (part ∷ parts) = refl

-- One part more than there are bars.
pub length-split_bar : (s : String) → length (split_bar s) ≡ suc (bars s)
unfolding split_bar
length-split_bar String.[] = refl
length-split_bar (String.◌∷◌ c s) = elim (Bool-cases (is_bar c)) [
  | inl bar ↦ rw (split_bar, bar) (ap suc (length-split_bar s))
  | inr other ↦ rw (split_bar, other) (length-join_first c (split_bar s) ∙ length-split_bar s)
]

pub split_bar-append : (s t : String) → bars s ≡ 0 → split_bar (s +ₛ ("|" +ₛ t)) ≡ s ∷ split_bar t
unfolding split_bar
split_bar-append String.[] t none_here =
    rw (Appended.nil ("|" +ₛ t), Appended.cons "|" String.[] t, Appended.nil t) refl
split_bar-append (String.◌∷◌ c s) t none_here = elim (Bool-cases (is_bar c)) [
  | inl bar ↦ absurd (ground (arith, bar, none_here))
  | inr other ↦
      rw (Appended.cons c s ("|" +ₛ t), split_bar, other)
        (ap (join_first c) (split_bar-append s t (ground (arith, other, none_here))))
]

pub split_bar-none : (s : String) → bars s ≡ 0 → split_bar s ≡ s ∷ []
unfolding split_bar
split_bar-none String.[] none_here = refl
split_bar-none (String.◌∷◌ c s) none_here = elim (Bool-cases (is_bar c)) [
  | inl bar ↦ absurd (ground (arith, bar, none_here))
  | inr other ↦
      rw (split_bar, other)
        (ap (join_first c) (split_bar-none s (ground (arith, other, none_here))))
]

-- The rest of `s` behind the text `prefix`.
abbrev pub behind_prefix : String → String → Option String
behind_prefix String.[] s = some s
behind_prefix (String.◌∷◌ p prefix) String.[] = none
behind_prefix (String.◌∷◌ p prefix) (String.◌∷◌ c s) =
    if code c == code p then behind_prefix prefix s else none

-- `s.split(marker, 1)[1]` of a text that has the marker, which is not empty.
unfoldable pub behind_marker : String → String → Option String
behind_marker marker String.[] = none
behind_marker marker (String.◌∷◌ c s) = elim (behind_prefix marker (String.◌∷◌ c s)) [
  | none ↦ behind_marker marker s
  | some rest ↦ some rest
]

pub behind_marker-append :
    (s t : String) → bars s ≡ 0 → behind_marker "|mac=" (s +ₛ ("|mac=" +ₛ t)) ≡ some t
unfolding behind_marker
behind_marker-append String.[] t none_here =
    rw
      (
        Appended.nil ("|mac=" +ₛ t),
        Appended.cons "|" "mac=" t,
        Appended.cons "m" "ac=" t,
        Appended.cons "a" "c=" t,
        Appended.cons "c" "=" t,
        Appended.cons "=" String.[] t,
        Appended.nil t,
      )
      refl
behind_marker-append (String.◌∷◌ c s) t none_here = elim (Bool-cases (is_bar c)) [
  | inl bar ↦ absurd (ground (arith, bar, none_here))
  | inr other ↦
      rw (Appended.cons c s ("|mac=" +ₛ t), behind_marker, other)
        (behind_marker-append s t (ground (arith, other, none_here)))
]
