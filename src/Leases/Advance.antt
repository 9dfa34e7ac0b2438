-- ===== src/Leases/Advance.antt =====
-- deepiri_zepgpu/database/repositories/node_task_repository.py: how one row and a table of rows may
-- change.
use deepiri_zepgpu.Base.Dict.{lookup-insert, Dict, is_some, lookup, insert}
use deepiri_zepgpu.Base.{
  if◌then◌else◌, string_eq, nat_eq, ◌==◌, eq_of_beq, Bool-cases, ℕ, ◌≤◌, String, ◌≡◌, refl, sym, ap,
  subst, ◌∙◌, ◌⊎◌, inl, inr, Bool, true, false, none, some, arith,
}
use deepiri_zepgpu.Leases.Rows.{
  NodeAssignmentStatus, assigned, accepted, running, completed, failed, cancelled, is_terminal,
  NodeTaskAssignment,
}

-- The stages of a lease in order.
abbrev pub rank : NodeAssignmentStatus → ℕ
rank assigned = 0
rank accepted = 1
rank running = 2
rank completed = 3
rank failed = 3
rank cancelled = 3

-- What every change of a row respects.
pub record Later (a b : NodeTaskAssignment) : Type 0 where
  pub same_id : b.id ≡ a.id
  pub stage : rank a.status ≤ rank b.status
  pub generation : a.claim_generation ≤ b.claim_generation
  pub request : (is_some a.cancel_requested_at ≡ false) ⊎ (is_some b.cancel_requested_at ≡ true)
  pub end : (is_terminal a.status ≡ false) ⊎ (b ≡ a)

-- Each row is there, later or the same.
abbrev pub Rows : Type 0
Rows = Dict String NodeTaskAssignment

abbrev pub Keyed : Rows → Type 0
Keyed r = (id : String) (a : NodeTaskAssignment) → lookup id r ≡ some a → a.id ≡ id

abbrev pub Onward : Rows → Rows → Type 0
Onward r r' =
    (id : String) (a : NodeTaskAssignment)
    → lookup id r ≡ some a
    → (b : NodeTaskAssignment) × (lookup id r' ≡ some b) × Later a b

abbrev pub Advances : Rows → Rows → Type 0
Advances r r' = Keyed r → Keyed r' × Onward r r'

pub Later-refl : (a : NodeTaskAssignment) → Later a a
Later-refl a = record {
  same_id = refl;
  stage = omega arith;
  generation = omega arith;
  request = elim (Bool-cases (is_some a.cancel_requested_at)) [ inl e ↦ inr e | inr e ↦ inl e ];
  end = inr refl;
}

pub Later-trans : (a b c : NodeTaskAssignment) → Later a b → Later b c → Later a c
Later-trans a b c p q = record {
  same_id = q.same_id ∙ p.same_id;
  stage = let h = p.stage in let k = q.stage in omega arith;
  generation = let h = p.generation in let k = q.generation in omega arith;
  request = let h = p.request in let k = q.request in ground arith;
  end = let h = p.end in let k = q.end in ground arith;
}

pub Advances-refl : (r : Rows) → Advances r r
Advances-refl r keyed = (keyed, λ id a h. (a, h, Later-refl a))

pub Advances-trans : (r s t : Rows) → Advances r s → Advances s t → Advances r t
Advances-trans r s t p q keyed =
    let (keyed', rs) = p keyed in
    let (keyed'', st) = q keyed' in
    (
      keyed'',
      λ id a h.
          let (b, found, ab) = rs id a h in
          let (c, found', bc) = st id b found in (c, found', Later-trans a b c ab bc),
    )

-- A row that stands at its id, or at none.
abbrev pub Here : NodeTaskAssignment → Rows → Type 0
Here a r = (c : NodeTaskAssignment) → lookup a.id r ≡ some c → c ≡ a

pub found-Here : (r : Rows) (a : NodeTaskAssignment) → lookup a.id r ≡ some a → Here a r
found-Here r a found c h = ground (arith, found, h)

pub missing-Here : (r : Rows) (a : NodeTaskAssignment) → lookup a.id r ≡ none → Here a r
missing-Here r a missing c h = ground (arith, missing, h)

-- A write of a later version of the row.
pub insert-Advances :
    (r : Rows) (a b : NodeTaskAssignment) → Here a r → Later a b → Advances r (insert b.id b r)
insert-Advances r a b here later keyed = (keyed', onward)
  where
    there :
        (j : String) (c : NodeTaskAssignment)
        → (b.id == j) ≡ true
        → lookup j (insert b.id b r) ≡ some c
        → b ≡ c
    there j c e h = ground (arith, lookup-insert j b.id b r)

    other : (j : String) → (b.id == j) ≡ false → lookup j (insert b.id b r) ≡ lookup j r
    other j e = rw (lookup-insert j b.id b r, e)

    keyed' : Keyed (insert b.id b r)
    keyed' j c h = elim (Bool-cases (b.id == j)) [
      | inl e ↦ ap (λ x. x.id) (sym (there j c e h)) ∙ eq_of_beq b.id j e
      | inr e ↦ keyed j c (sym (other j e) ∙ h)
    ]

    same : (j : String) (c : NodeTaskAssignment) → (b.id == j) ≡ true → lookup j r ≡ some c → c ≡ a
    same j c e h = here c (ap (λ k. lookup k r) (sym later.same_id ∙ eq_of_beq b.id j e) ∙ h)

    onward : Onward r (insert b.id b r)
    onward j c h = elim (Bool-cases (b.id == j)) [
      | inl e ↦
          (b, rw (lookup-insert j b.id b r, e), subst (λ x. Later x b) (sym (same j c e h)) later)
      | inr e ↦ (c, other j e ∙ h, Later-refl c)
    ]

-- A condition, each branch under its case.
pub either {ℓ κ} :
    {A : Type ℓ} {x y : A} (P : A → Type κ) (b : Bool)
    → (b ≡ true → P x)
    → (b ≡ false → P y)
    → P (if b then x else y)
either P true if_true if_false = if_true refl
either P false if_true if_false = if_false refl
