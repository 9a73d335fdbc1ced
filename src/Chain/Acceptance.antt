-- ===== src/Chain/Acceptance.antt =====
-- The invariant of a node in `HandleNewBlock` and `ProposeNewBlock` of
-- app/internal/blockchain/chain.go, on every path.
use go_blockchain_demo.Prelude.{
  ℕ, ◌<◌, String, ◌≡◌, sym, subst, ◌∙◌, List, errorf, arith, effects, uint64_mod, ◌==◌, Ensures,
  ensure, Ensures-bind, Ensures-wrapping, Ensures-if, Ensures-lift, Ensures-weaken, Reads,
  Ensures-reads, not, str_eq, fail,
}
use go_blockchain_demo.Records.{Block}
use go_blockchain_demo.Ledger.{Distinct}
use go_blockchain_demo.Library.{Library}
use go_blockchain_demo.Library.Laws.{Laws}
use go_blockchain_demo.State.{Blockchain, blocks}
use go_blockchain_demo.State.View.{IsHealthy}
use go_blockchain_demo.Transactions.{process_transactions_by_ids}
use go_blockchain_demo.Transactions.Round.{process_transactions_by_ids-Inv}
use go_blockchain_demo.Chain.Defs.{
  block_key, get_node_config_by_index, get_block_from_trie, save_block_to_trie,
}
use go_blockchain_demo.Chain.Blocks.{verifier_index, existing_block, accept_block, handle_new_block}
use go_blockchain_demo.Chain.Heads.{Heads}
use go_blockchain_demo.Chain.Invariant.{
  next_heads, NodeAt, Reached, stays, processed, save_block_to_trie-NodeAt,
}

module _ (lib : Library) (laws : Laws lib) where
  existing_block-Reads :
      (index : ℕ) (s : Blockchain lib) → IsHealthy lib laws s → Reads (existing_block index) s
  unfolding existing_block get_block_from_trie effects
  existing_block-Reads index s healthy =
      let (t, here, open_t) = healthy.opened blocks in
      let reads = laws.trie_get_lem t (block_key index) s.world healthy.fine open_t in
      ensure (ground (arith, here, reads))

  get_node_config_by_index-Reads :
      (index : ℕ) (s : Blockchain lib) → Reads (get_node_config_by_index index) s
  unfolding get_node_config_by_index effects
  get_node_config_by_index-Reads index s = ensure (ground arith)

  module _ (addresses : List String) (sum : ℕ) (distinct : Distinct addresses)
      (bound : sum < uint64_mod) (heads : Heads) where
    abbrev R : Blockchain lib → Type 0
    R = Reached lib laws addresses sum heads

    abbrev Here : Blockchain lib → Type 0
    Here = NodeAt lib laws addresses sum heads

    -- A later block is saved, seen from the heads before.
    pub saves :
        (block : Block) (s : Blockchain lib)
        → Here s
        → 0 < block.index
        → Ensures R (λ _. R) (save_block_to_trie block s)
    saves block s node later =
        Ensures-weaken (λ s'. stays lib laws addresses sum heads s')
          (λ _ s' after. (next_heads block heads, after, ground arith))
          (save_block_to_trie-NodeAt lib laws addresses sum block heads s node later)

    processes :
        (tx_ids : List String) (s : Blockchain lib)
        → Here s
        → Ensures R (λ _. Here) (process_transactions_by_ids tx_ids s)
    processes tx_ids s node =
        Ensures-weaken
          (λ s' inv.
            stays lib laws addresses sum heads s'
              (processed lib laws addresses sum heads s s' node inv))
          (λ _ s' inv. processed lib laws addresses sum heads s s' node inv)
          (process_transactions_by_ids-Inv lib laws addresses sum s distinct bound tx_ids s
            node.inv)

    accept_block-Reached :
        (block : Block) (s : Blockchain lib)
        → Here s
        → 0 < block.index
        → Ensures R (λ _. R) (accept_block block s)
    unfolding accept_block
    accept_block-Reached block s node later =
        let here : R s = stays lib laws addresses sum heads s node in
        Ensures-bind {Q = λ _ s1. s1 ≡ s} _ _
          (Ensures-wrapping _ _ (
            Ensures-weaken (λ s1 e. subst R (sym e) here) (λ _ s1 e. e)
              (get_node_config_by_index-Reads (verifier_index block.index) s)))
          λ node_config s1 e1.
            Ensures-bind {Q = λ _ s2. s2 ≡ s1} _ _
              (Ensures-wrapping _ _ (
                Ensures-weaken (λ _ h. h) (λ _ s2 h. h.0)
                  (Ensures-lift _ s1 (subst R (sym e1) here))))
              λ verified s2 e2.
                Ensures-bind {Q = λ _. Here} _ _
                  (Ensures-wrapping _ _ (processes block.txns s2 (subst Here (sym (e2 ∙ e1)) node)))
                  λ _ s3 after. Ensures-wrapping _ _ (saves block s3 after later)

    -- From a node that keeps the invariant, `HandleNewBlock` at any block ends, with success, with an
    -- error or in a panic, in a node that keeps it, and the index of the last block does not go
    -- down, if the sum is a uint64. The invariant is that of the processing of transactions, that the
    -- current block is not ahead of the last one, that the trie has no block above the current one,
    -- and that everything the tries hold is on the disk.
    pub handle_new_block-Reached :
        (block : Block) (s : Blockchain lib)
        → Here s
        → Ensures R (λ _. R) (handle_new_block block s)
    unfolding handle_new_block
    handle_new_block-Reached block s node =
        Ensures-if (block.index == 0) _ _
          (λ first. ensure (stays lib laws addresses sum heads s node))
          (λ later.
            Ensures-reads _ _ (stays lib laws addresses sum heads s node)
              (existing_block-Reads block.index s node.inv.healthy)
              λ existing.
                Ensures-if (not (str_eq existing.block_header.signature ""))
                  (fail (errorf "Block đã tồn tại" existing.block_header.signature))
                  (accept_block block) (λ known. ensure (stays lib laws addresses sum heads s node))
                  (λ unknown. accept_block-Reached block s node (ground (arith, later))))
