-- ===== src/Pipeline/Keys.antt =====
-- Predicates on the keys of the dict of running tasks, and on lists, for core/pipeline_manager.py.
use mathlib.Core.List.{Memᴰ}
use deepiri_zepgpu.Base.{
  string_eq, nat_eq, ◌==◌, Bool-cases, All, ℕ, zero, suc, String, ◌≡◌, refl, sym, subst, ◌∙◌, inl,
  inr, Option, some, List, [], ◌∷◌,
}
use deepiri_zepgpu.Base.Dict.{Dict, insert, erase}
use deepiri_zepgpu.Pipeline.Rounds.{take, name_of_task}

module _ {ℓ κ} {A : Type ℓ} where
  pub All-map : {P Q : A → Type κ} (f : (x : A) → P x → Q x) (xs : List A) → All P xs → All Q xs
  All-map f [] h = tt
  All-map f (x ∷ xs) h = (f x h.0, All-map f xs h.1)

  pub All-take : (P : A → Type κ) (n : ℕ) (xs : List A) → All P xs → All P (take n xs)
  All-take P zero xs h = tt
  All-take P (suc n) [] h = tt
  All-take P (suc n) (x ∷ xs) h = (h.0, All-take P n xs h.1)

pub members {ℓ} : {A : Type ℓ} (xs : List A) → All (λ x. Memᴰ x xs) xs
members [] = tt
members (x ∷ xs) = (Memᴰ.head refl, All-map (λ y h. Memᴰ.tail h) xs (members xs))

abbrev pub Keys : (String → Type 0) → Dict String ℕ → Type 0
Keys P [] = Unit
Keys P ((k, v) ∷ d) = P k × Keys P d

pub Keys-map :
    {P Q : String → Type 0} (f : (x : String) → P x → Q x) (d : Dict String ℕ) → Keys P d → Keys Q d
Keys-map f [] h = tt
Keys-map f ((k, v) ∷ d) h = (f k h.0, Keys-map f d h.1)

module _ (P : String → Type 0) where
  pub Keys-insert :
      (k : String) (v : ℕ) (d : Dict String ℕ) → P k → Keys P d → Keys P (insert k v d)
  Keys-insert k v [] p h = (p, tt)
  Keys-insert k v ((j, w) ∷ d) p h = elim (Bool-cases (j == k)) [
    | inl here ↦ rw here h
    | inr further ↦ rw further (h.0, Keys-insert k v d p h.1)
  ]

  pub Keys-erase : (k : String) (d : Dict String ℕ) → Keys P d → Keys P (erase k d)
  Keys-erase k [] h = tt
  Keys-erase k ((j, w) ∷ d) h = elim (Bool-cases (j == k)) [
    | inl here ↦ rw here h.1
    | inr further ↦ rw further (h.0, Keys-erase k d h.1)
  ]

  pub Keys-name_of_task :
      (task : ℕ) (d : Dict String ℕ) (name : String)
      → Keys P d
      → name_of_task task d ≡ some name
      → P name
  unfolding name_of_task
  Keys-name_of_task task [] name h e = absurd cc
  Keys-name_of_task task ((j, t) ∷ d) name h e = elim (Bool-cases (t == task)) [
    | inl here ↦ subst P (some-inj (sym (rw here refl) ∙ e)) h.0
    | inr further ↦ Keys-name_of_task task d name h.1 (sym (rw further refl) ∙ e)
  ]
    where
      some-inj : {a b : String} → ◌≡◌ {A = Option String} (some a) (some b) → a ≡ b
      some-inj q = cc
