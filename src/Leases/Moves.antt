-- ===== src/Leases/Moves.antt =====
-- deepiri_zepgpu/database/repositories/node_task_repository.py: what the calls of agents and hosts leave
-- to the table of assignments.
use deepiri_zepgpu.Leases.Goes.{Goes, Goes-refl, Goes-trans, Advances-Goes, mark_terminal-Goes}
use deepiri_zepgpu.Base.Dict.{insert, lookup}
use deepiri_zepgpu.Base.{
  string_eq, nat_eq, Option-cases, ℕ, String, ◌≡◌, refl, sym, ap, subst, ◌∙◌, inl, inr, false, not,
  Option, none, some, arith,
}
use deepiri_zepgpu.Ledger.Json.{Conversions}
use deepiri_zepgpu.Leases.Rows.{
  is_terminal, is_cancelled, is_peer, NodeTaskAssignment, Tables, get_by_id, get_for_peer,
}
use deepiri_zepgpu.Leases.Lifecycle.{
  Answer, mark_terminal, Ending, Durations, ignore_terminal_conflict, record_event,
}
use deepiri_zepgpu.Leases.Operations.{
  answered, Reply, with_row, cancelling, mark_cancelled, cancel_row,
}
use deepiri_zepgpu.Leases.Advance.{
  insert-Advances, Later, either, Advances-refl, Advances, found-Here,
}
use deepiri_zepgpu.Leases.Rewrites.{IsEnding}

-- A record, so that a condition inside a reply can be split.
pub record Moves (t : Tables) (r : Reply) : Type 0 where
  pub moves : Goes t r.1

-- A row that a query found stands at its own id.
abbrev pub Own : Tables → NodeTaskAssignment → Type 0
Own t a = lookup a.id t.assignments ≡ some a

-- Tables with the same assignments and shares.
pub same-Moves :
    (t t' : Tables) (o : Option Answer)
    → t'.assignments ≡ t.assignments
    → t'.shares ≡ t.shares
    → Moves t (o, t')
same-Moves t t' o same unshared = record {
  moves =
      Advances-Goes t t' (subst (Advances t.assignments) (sym same) (Advances-refl t.assignments))
        unshared;
}

pub trans-Moves :
    (s t : Tables) (o : Option Answer) (r : Reply) → Moves s (o, t) → Moves t r → Moves s r
trans-Moves s t o r p q = record { moves = Goes-trans s t r.1 p.moves q.moves }

-- A row is saved, the assignments are not touched after, and the shares not at all.
pub save-Moves :
    (t t' : Tables) (o : Option Answer) (a b : NodeTaskAssignment)
    → Own t a
    → Later a b
    → t'.assignments ≡ insert b.id b t.assignments
    → t'.shares ≡ t.shares
    → Moves t (o, t')
save-Moves t t' o a b own later saved unshared = record {
  moves =
      Advances-Goes t t'
        (subst (Advances t.assignments) (sym saved)
          (insert-Advances t.assignments a b (found-Here t.assignments a own) later))
        unshared;
}

pub with_row-Moves :
    (id : String) (o : Option NodeTaskAssignment) (t : Tables) (k : NodeTaskAssignment → Reply)
    → ((a : NodeTaskAssignment) → o ≡ some a → lookup id t.assignments ≡ some a)
    → ((a : NodeTaskAssignment) → Own t a → Moves t (k a))
    → Moves t (with_row o t k)
with_row-Moves id none t k at each = record { moves = Goes-refl t }
with_row-Moves id (some a) t k at each = record {
  moves = λ keyed.
      (each a (ap (λ x. lookup x t.assignments) (keyed id a (at a refl)) ∙ at a refl)).moves keyed;
}

pub get_for_peer-row :
    (id peer_id : String) (t : Tables) (a : NodeTaskAssignment)
    → get_for_peer id peer_id t ≡ some a
    → lookup id t.assignments ≡ some a
unfolding get_for_peer get_by_id
get_for_peer-row id peer_id t a h = elim (Option-cases (lookup id t.assignments)) [
  | inl e ↦ ground (arith, e, h)
  | inr (b, e) ↦ ground (arith, e, h)
]

module _ (py : Conversions) (durations : Durations) (now : ℕ) where
  pub ends-Moves :
      (e : Ending) (a : NodeTaskAssignment) (t : Tables)
      → IsEnding e
      → Own t a
      → Moves t (answered (mark_terminal py now e a t))
  ends-Moves e a t ending own = record {
    moves = mark_terminal-Goes py now e a t ending (found-Here t.assignments a own);
  }

  cancel_row-Moves :
      (peer_id : Option String) (reason : String) (a : NodeTaskAssignment) (t : Tables)
      → Own t a
      → Moves t (cancel_row py durations now peer_id reason a t)
  unfolding cancel_row ignore_terminal_conflict record_event
  cancel_row-Moves peer_id reason a t own =
      either (Moves t) (elim peer_id [ none ↦ false | some p ↦ not (is_peer p a) ])
        (λ _. record { moves = Goes-refl t })
        (λ _.
          either (Moves t) (is_cancelled a.status) (λ _. record { moves = Goes-refl t })
            (λ _.
              either (Moves t) (is_terminal a.status) (λ _. record { moves = Goes-refl t })
                (λ _. ends-Moves (cancelling reason) a t refl own)))

  pub mark_cancelled-Moves :
      (id : String) (peer_id : Option String) (reason : String) (t : Tables)
      → Moves t (mark_cancelled py durations now id peer_id reason t)
  unfolding mark_cancelled get_by_id
  mark_cancelled-Moves id peer_id reason t =
      with_row-Moves id (get_by_id id t) t (λ a. cancel_row py durations now peer_id reason a t)
        (λ a h. h) (λ a own. cancel_row-Moves peer_id reason a t own)
