-- ===== src/Ledger/Service/Books/Approvals.antt =====
-- deepiri_zepgpu/compute_ledger/service.py: `approve_block` keeps the books.
use deepiri_zepgpu.Ledger.Store.Sealed.{tx_of}
use deepiri_zepgpu.Base.{
  leb, string_eq, nat_eq, ◌==◌, Bool-cases, Option-cases, length, any, elem, guard-ok, ok-injective,
  Outcome-cases, ok, String, ◌≡◌, refl, sym, ap, ◌∙◌, inl, inr, Bool, true, false, not, some, List,
}
use deepiri_zepgpu.Ledger.Block.{ComputeBlock}
use deepiri_zepgpu.Ledger.Poa.{add_approval}
use deepiri_zepgpu.Ledger.Store.{block_transactions, BlockRow, get_block_by_hash}
use deepiri_zepgpu.Ledger.Service.Setup.{Setup, quorum_threshold}
use deepiri_zepgpu.Ledger.Service.Session.{already_finalized, Session}
use deepiri_zepgpu.Ledger.Service.Propose.{block_to_domain, active_keys}
use deepiri_zepgpu.Ledger.Service.Handlers.{ensure_initialized}
use deepiri_zepgpu.Ledger.Service.Approve.{
  approve_waiting, approve_found, approve_started, approve_block,
}
use deepiri_zepgpu.Ledger.Service.Books.{Store, PrintsIds}
use deepiri_zepgpu.Ledger.Service.Books.Opened.{Kept, Running, ensure_initialized-Running}
use deepiri_zepgpu.Ledger.Service.Books.Approved.{block_to_domain-transactions}
use deepiri_zepgpu.Ledger.Service.Books.Waiting.{IsWaiting}
use deepiri_zepgpu.Ledger.Service.Books.Served.{store_approvals-Running, finalize_block-Running}
use deepiri_zepgpu.Ledger.Service.Books.Triples.{Ends, Ends-bind, Ends-throw_if}

-- An approval changes the approvals alone.
add_approval-frame :
    (verify_signature : String → String → String → Bool) (key signature : String)
    (authorized : List String) (block block' : ComputeBlock)
    → add_approval verify_signature key signature authorized block ≡ ok block'
    → (block'.id ≡ block.id) × (block'.transactions ≡ block.transactions)
unfolding add_approval
add_approval-frame verify_signature key signature authorized block block' h =
    let (_, h1) = guard-ok (not (elem key authorized)) _ _ h in
    let (_, h2) = guard-ok (not (verify_signature key block.hash signature)) _ _ h1 in
    let (_, h3) = guard-ok (any (λ a. a.validator == key) block.approvals) _ _ h2 in
    let same = sym (ok-injective h3) in (ap (λ b. b.id) same, ap (λ b. b.transactions) same)

block_to_domain-fields :
    (s : Store) (r : BlockRow)
    → ((block_to_domain s r).id ≡ r.id) × ((block_to_domain s r).finalized ≡ r.finalized)
unfolding block_to_domain
block_to_domain-fields s r = (refl, refl)

module _ (setup : Setup) (prints : PrintsIds setup.columns) where
  approve_waiting-Running :
      (key signature : String) (block : ComputeBlock) (r : BlockRow) (s : Session)
      → Running setup s
      → IsWaiting setup r s.store
      → block.id ≡ r.id
      → block.transactions ≡ tx_of (block_transactions r.id s.store.transactions)
      → Ends
          (Kept setup)
          (λ _. Running setup)
          (approve_waiting setup key signature block s).0
          (approve_waiting setup key signature block s).1
  unfolding approve_waiting
  approve_waiting-Running key signature block r s running w same holds =
      let validators = active_keys s.store in
      elim (Outcome-cases (add_approval setup.verify_signature key signature validators block)) [
        | inr (e, raised) ↦ rw raised (running.1)
        | inl (approved, adds) ↦
            let (id, txs) =
              add_approval-frame setup.verify_signature key signature validators block approved
                adds in
            elim (Bool-cases (leb (quorum_threshold setup) (length approved.approvals))) [
              | inl reached ↦
                  rw (adds, reached)
                    (finalize_block-Running setup prints validators
                      (record approved { finalized = true }) r s running w (id ∙ same)
                      (txs ∙ holds))
              | inr missing ↦
                  rw (adds, missing)
                    (store_approvals-Running setup prints (record approved { finalized = false }) r
                      s running w (id ∙ same))
            ]
      ]

  approve_found-Running :
      (key signature block_hash : String) (r : BlockRow) (s : Session)
      → Running setup s
      → get_block_by_hash block_hash s.store ≡ some r
      → Ends
          (Kept setup)
          (λ _. Running setup)
          (approve_found setup key signature (block_to_domain s.store r) s).0
          (approve_found setup key signature (block_to_domain s.store r) s).1
  unfolding approve_found
  approve_found-Running key signature block_hash r s running found =
      let block = block_to_domain s.store r in
      let (id, final) = block_to_domain-fields s.store r in
      Ends-throw_if (Kept setup) (λ _. Running setup) s (approve_waiting setup key signature block)
        block.finalized already_finalized running.1
        (λ waits.
          approve_waiting-Running key signature block r s running
            (record {
              booked = running.0.0;
              block_hash = block_hash;
              found = found;
              waits = sym final ∙ waits;
            })
            id (block_to_domain-transactions s.store r))

  approve_started-Running :
      (block_hash key signature : String) (s : Session)
      → Running setup s
      → Ends
          (Kept setup)
          (λ _. Running setup)
          (approve_started setup block_hash key signature s).0
          (approve_started setup block_hash key signature s).1
  unfolding approve_started
  approve_started-Running block_hash key signature s running =
      elim (Option-cases (get_block_by_hash block_hash s.store)) [
        | inl none_found ↦ rw none_found (running.1)
        | inr (r, found) ↦
            rw found (approve_found-Running key signature block_hash r s running found)
      ]

  pub approve_block-Running :
      (block_hash key signature : String) (s : Session)
      → Kept setup s.store
      → Kept setup s.committed
      → Ends
          (Kept setup)
          (λ _. Running setup)
          (approve_block setup block_hash key signature s).0
          (approve_block setup block_hash key signature s).1
  unfolding approve_block
  approve_block-Running block_hash key signature s kept committed =
      Ends-bind (Kept setup) (λ _. Running setup) s (λ _. Running setup) (ensure_initialized setup)
        (λ _. approve_started setup block_hash key signature)
        (ensure_initialized-Running setup prints s kept committed)
        (λ _ s' running. approve_started-Running block_hash key signature s' running)
