-- ===== src/Examples/Blocks.antt =====
-- Blocks at the example node.
use go_blockchain_demo.Prelude.{
  ℕ, ◌+◌, ◌%◌, ◌≤◌, ◌<◌, ◌≡◌, ◌≢◌, ◌↔◌, refl, Bool, true, false, [], ◌∷◌, ok, err, errorf, arith,
  effects, lookup, Decimal.decimal,
}
use go_blockchain_demo.Records.{Block}
use go_blockchain_demo.Library.Memory.{memory, memory_laws}
use go_blockchain_demo.State.{Blockchain, commit_to_database, restore_trie_from_root_hash}
use go_blockchain_demo.Mempool
use go_blockchain_demo.Accounts.{get_account_from_trie, save_account_to_trie}
use go_blockchain_demo.Transactions.{
  process_transactions_by_ids, process_transaction_by_id, is_transaction_exist,
  get_transaction_by_id, find_locally, or_ask_network, save_transaction_to_trie,
}
use go_blockchain_demo.Signatures.{verify_signature}
use go_blockchain_demo.Chain.{
  block_key, find_node, may_propose, verifier_index, check_proposal_condition, save_block_to_trie,
  handle_new_block, get_block_from_trie,
}
use go_blockchain_demo.Chain.Proposal.{may_propose-two_nodes, verifier_index-proposer}
use go_blockchain_demo.Chain.Heads.{
  Heads, advance, Advances, advance_chain-Advances, IsOrdered, advance-IsOrdered,
}
use go_blockchain_demo.Chain.Turn.{check_proposal_condition_lem}
use go_blockchain_demo.Chain.Saved.{
  BlockSaved, block_in, save_block_to_trie-BlockSaved, save_block_to_trie-refused,
}
use go_blockchain_demo.Chain.Lookup.{get_block_from_trie-save_block_to_trie}
use go_blockchain_demo.Chain.Invariant.{next_heads}
use go_blockchain_demo.Chain.Forged.{handle_new_block-unverified}
use go_blockchain_demo.Examples.Node.{
  block_of, node_of, heads, start, start-IsHealthy, start-HasHeads, start-NodeAt, addresses,
  addresses-Distinct,
}

abbrev third : Block
third = record (block_of 3 ("t1" ∷ [])) {
  block_header = record (block_of 3 []).block_header { signature = "forged" };
}

abbrev fifth : Block
fifth = block_of 5 []

abbrev advanced : Heads
advanced = record { current = third; last = third }

may_propose-two_nodes_example : (may_propose 0 1 ≡ true) × (may_propose 0 2 ≡ true)
may_propose-two_nodes_example = may_propose-two_nodes 0 (omega arith)

verifier_index-proposer_example : verifier_index 3 ≢ 3
unfolding may_propose
verifier_index-proposer_example =
    verifier_index-proposer 2 3 (omega arith) (omega arith) (omega arith) (omega arith) refl

check_proposal_condition_lem_example :
    (allowed : Bool) × (check_proposal_condition start ≡ (ok allowed, start))
    × ((allowed ≡ true) ↔ ((2 ≤ 2) × (3 ≡ 2 % 3 + 1)))
check_proposal_condition_lem_example =
    check_proposal_condition_lem memory memory_laws heads start tt start-HasHeads (omega arith)
      (omega arith) (omega arith) (omega arith)

advance_chain-Advances_example : Advances memory memory_laws third start (advance third heads)
advance_chain-Advances_example =
    advance_chain-Advances memory memory_laws third heads start tt start-HasHeads

advance-IsOrdered_example : IsOrdered advanced × ((0 < 3) → 2 ≤ 3)
advance-IsOrdered_example = advance-IsOrdered third heads advanced (omega arith) refl

save_block_to_trie-BlockSaved_example :
    (s' : Blockchain memory) × (save_block_to_trie third start ≡ (ok tt, s'))
    × BlockSaved memory memory_laws third advanced start s'
save_block_to_trie-BlockSaved_example =
    save_block_to_trie-BlockSaved memory memory_laws third heads advanced start start-IsHealthy
      start-HasHeads refl refl

save_block_to_trie-refused_example :
    save_block_to_trie fifth start
    ≡ (err (errorf "block index không hợp lệ: %d" (decimal 5)), start)
save_block_to_trie-refused_example =
    save_block_to_trie-refused memory memory_laws fifth heads start tt start-HasHeads refl

get_block_from_trie-save_block_to_trie_example :
    (s' : Blockchain memory) × (save_block_to_trie third start ≡ (ok tt, s'))
    × (get_block_from_trie (block_key 3) s' ≡ (ok third, s'))
    × ((index : ℕ)
        → index ≢ 3
        → block_in memory memory_laws s' (block_key index)
          ≡ block_in memory memory_laws start (block_key index))
get_block_from_trie-save_block_to_trie_example =
    get_block_from_trie-save_block_to_trie memory memory_laws third heads advanced start
      start-IsHealthy start-HasHeads refl refl

-- The transaction of `third` can be processed.
processes_third :
    process_transactions_by_ids ("t1" ∷ []) start
    ≡ (ok tt, (process_transactions_by_ids ("t1" ∷ []) start).1)
unfolding process_transactions_by_ids process_transaction_by_id effects is_transaction_exist
    get_transaction_by_id find_locally Mempool.get_transaction lookup or_ask_network
    get_account_from_trie save_account_to_trie commit_to_database restore_trie_from_root_hash
    save_transaction_to_trie
processes_third = refl

-- The signature of `third` is not one of the configured node.
handle_new_block-unverified_example :
    (s' : Blockchain memory) × (handle_new_block third start ≡ (ok tt, s'))
    × BlockSaved memory memory_laws third
        (next_heads third heads)
        (process_transactions_by_ids ("t1" ∷ []) start).1
        s'
unfolding verifier_index find_node verify_signature
handle_new_block-unverified_example =
    handle_new_block-unverified memory memory_laws addresses 15 heads third (node_of 1) false start
      (process_transactions_by_ids ("t1" ∷ []) start).1 addresses-Distinct (omega arith)
      start-NodeAt refl (omega arith) processes_third refl refl
