-- ===== src/Chain/Forged.antt =====
-- `HandleNewBlock` of app/internal/blockchain/chain.go looks at the error of `VerifySignature`, and
-- not at its result.
use Prim.Native.String.{◌++◌}
use go_blockchain_demo.Prelude.{
  ℕ, ◌+◌, ◌<◌, String, ◌≡◌, subst, List, none, some, Bool, Outcome, ok, arith, effects, uint64_mod,
  Ensures,
}
use go_blockchain_demo.Records.{Block, Node}
use go_blockchain_demo.Ledger.{Distinct}
use go_blockchain_demo.Library.{Library}
use go_blockchain_demo.Library.Laws.{Laws}
use go_blockchain_demo.Signatures.{verify_signature}
use go_blockchain_demo.State.{Blockchain, Slot}
use go_blockchain_demo.State.View.{IsHealthy, view}
use go_blockchain_demo.Transactions.{process_transactions_by_ids}
use go_blockchain_demo.Chain.Defs.{
  block_key, find_node, get_node_config_by_index, get_block_from_trie, empty_block,
}
use go_blockchain_demo.Transactions.Invariant.{Inv}
use go_blockchain_demo.Transactions.Round.{process_transactions_by_ids-Inv}
use go_blockchain_demo.Chain.Heads.{Heads}
use go_blockchain_demo.Chain.Saved.{BlockSaved, save_block_to_trie-BlockSaved}
use go_blockchain_demo.Chain.Invariant.{next_heads, NodeAt, processed}
use go_blockchain_demo.Chain.Blocks.{verifier_index, existing_block, accept_block, handle_new_block}

module _ (lib : Library) (laws : Laws lib) where
  existing_block-none :
      (index : ℕ) (s : Blockchain lib)
      → IsHealthy lib laws s
      → view lib laws Slot.blocks s (block_key index) ≡ none
      → existing_block index s ≡ (ok empty_block, s)
  unfolding existing_block get_block_from_trie effects
  existing_block-none index s healthy missing =
      let (t, here, open_t) = healthy.opened Slot.blocks in
      ground
        (arith, here, laws.trie_get_lem t (block_key index) s.world healthy.fine open_t, missing)

  ensured :
      {A : Type 0} {P : Blockchain lib → Type 0} {Q : A → Blockchain lib → Type 0}
      (p : Outcome A × Blockchain lib) (a : A) (s : Blockchain lib)
      → Ensures P Q p
      → p ≡ (ok a, s)
      → Q a s
  ensured {A} {P} {Q} p a s h e = (subst (Ensures P Q) e h).post

  -- From a node that keeps the invariant, if the sum is a uint64, a peer's block with the index after
  -- that of the current block, a uint64, whose transactions can be processed, and where the node to
  -- check with is configured and `VerifySignature` gives a result: whether that result is true or
  -- false, `HandleNewBlock` ends well, and the block is saved after its transactions: it is the current
  -- block, the last one if it is above the last, and the trie holds it, also on the disk.
  pub handle_new_block-unverified :
      (addresses : List String) (sum : ℕ) (heads : Heads) (block : Block) (node : Node)
      (verified : Bool) (s s1 : Blockchain lib)
      → Distinct addresses
      → sum < uint64_mod
      → NodeAt lib laws addresses sum heads s
      → block.index ≡ heads.current.index + 1
      → block.index < uint64_mod
      → process_transactions_by_ids block.txns s ≡ (ok tt, s1)
      → find_node (verifier_index block.index) s.config.nodes ≡ some node
      → verify_signature lib
          ("0x04" ++ node.public_key)
          (block_key block.index)
          block.block_header.signature
        ≡ ok verified
      → (s' : Blockchain lib) × (handle_new_block block s ≡ (ok tt, s'))
        × BlockSaved lib laws block (next_heads block heads) s1 s'
  unfolding handle_new_block accept_block get_node_config_by_index effects
  handle_new_block-unverified addresses sum heads block node verified s s1 distinct bound start next
        fits processes configured checked =
      let missing : view lib laws Slot.blocks s (block_key block.index) ≡ none =
        start.above block.index (omega arith) in
      let inv : Inv lib laws addresses sum s s1 =
        ensured (process_transactions_by_ids block.txns s) tt s1
          (process_transactions_by_ids-Inv lib laws addresses sum s distinct bound block.txns s
            start.inv)
          processes in
      let after = processed lib laws addresses sum heads s s1 start inv in
      let (s', saves, saved) =
        save_block_to_trie-BlockSaved lib laws block heads (next_heads block heads) s1
          after.inv.healthy after.has_heads (ground (arith, next, fits))
          (after.above block.index (omega arith)) in
      (
        s',
        ground (
          arith,
          next,
          existing_block-none block.index s start.inv.healthy missing,
          configured,
          checked,
          processes,
          saves,
        ),
        saved,
      )
