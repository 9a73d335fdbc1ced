-- ===== src/Chain/Proposing.antt =====
-- The invariant of a node in `ProposeNewBlock` of app/internal/blockchain/chain.go.
use go_blockchain_demo.Prelude.{
  ℕ, ◌+◌, ◌%◌, ◌<◌, String, ◌≡◌, refl, ◌∙◌, List, false, errorf, arith, effects, uint64_mod, ltb,
  if◌then◌else◌, Action, lift, pure, fail, not, wrapping, In, gets, Ensures, ensure, Ensures-bind,
  Ensures-wrapping, Ensures-if, Ensures-lift, Ensures-weaken, Ensures-reads, Ensures-gives, ◌>>=◌,
  ◌>>◌,
}
use go_blockchain_demo.Records.{Block, Transaction, empty_header}
use go_blockchain_demo.Ledger.{Distinct}
use go_blockchain_demo.Library.{Library}
use go_blockchain_demo.Library.Laws.{Laws}
use go_blockchain_demo.Signatures.{sign_merkle_root}
use go_blockchain_demo.State.{Blockchain, observe}
use go_blockchain_demo.Transactions.{process_mempool_transactions}
use go_blockchain_demo.Transactions.PoolRound.{process_mempool_transactions-Inv}
use go_blockchain_demo.Chain.Defs.{block_key, save_block_to_trie}
use go_blockchain_demo.Chain.Blocks.{may_propose, propose_new_block}
use go_blockchain_demo.Chain.Heads.{Heads, reads_current}
use go_blockchain_demo.Chain.Turn.{turn}
use go_blockchain_demo.Chain.Invariant.{NodeAt, Reached, stays, processed, outside}
use go_blockchain_demo.Chain.Acceptance.{saves}

-- The block that a node builds on its current block out of the IDs that it processed.
abbrev pub proposal : Block → List String → ℕ → String → Block
proposal current_block txns time signature =
    let next = (current_block.index + 1) % uint64_mod in
    record {
      block_header = record empty_header {
        version = current_block.block_header.version;
        previous_block_header = current_block.block_header.merkle_root;
        merkle_root = block_key next;
        time = time;
        signature = signature;
      };
      index = next;
      txns = txns;
    }

module _ (lib : Library) (laws : Laws lib) (addresses : List String) (sum : ℕ)
    (distinct : Distinct addresses) (bound : sum < uint64_mod) (heads : Heads)
    (order : List Transaction → List Transaction)
    (ranges : (txs : List Transaction) (tx : Transaction) → In tx (order txs) → In tx txs) where
  abbrev R : Blockchain lib → Type 0
  R = Reached lib laws addresses sum heads

  abbrev Here : Blockchain lib → Type 0
  Here = NodeAt lib laws addresses sum heads

  here : (s : Blockchain lib) → Here s → R s
  here s node = stays lib laws addresses sum heads s node

  processes :
      (s : Blockchain lib) → Here s → Ensures R (λ _. Here) (process_mempool_transactions order s)
  processes s node =
      Ensures-weaken (λ s' inv. here s' (processed lib laws addresses sum heads s s' node inv))
        (λ _ s' inv. processed lib laws addresses sum heads s s' node inv)
        (process_mempool_transactions-Inv lib laws addresses sum s distinct bound order s ranges
          node.inv)

  -- Reading the clock keeps the node.
  clock-Here : (s : Blockchain lib) → Here s → Here (record s { world = (lib.now s.world).1 })
  clock-Here s node =
      let (fine, same, kept) = laws.now_lem s.world node.inv.healthy.fine in
      outside lib laws addresses sum heads s _ node fine (record { same = same; kept = kept })

  abbrev finish : Block → List String → Action (Blockchain lib) Block
  finish current_block processed_txs = gets (λ s. s.config.private_key_hex) >>= λ private_key_hex.
      wrapping "lỗi khi tạo chữ ký" (
        lift (
          sign_merkle_root lib private_key_hex
            (block_key ((current_block.index + 1) % uint64_mod))))
      >>= λ signature. observe lib lib.now >>= λ time.
          wrapping "lỗi khi lưu khối mới"
            (save_block_to_trie (proposal current_block processed_txs time signature))
          >> pure (proposal current_block processed_txs time signature)

  -- The rest of the proposal, after the pool is processed.
  builds :
      (current_block : Block) (processed_txs : List String) (s : Blockchain lib)
      → Here s
      → 0 < (current_block.index + 1) % uint64_mod
      → Ensures R
          (λ block s'. R s' × (block.index ≡ (current_block.index + 1) % uint64_mod))
          (finish current_block processed_txs s)
  builds current_block processed_txs s node later =
      Ensures-reads _ _ (here s node) (ensure refl) λ private_key_hex.
        Ensures-reads _ _ (here s node)
          (Ensures-wrapping _ _ (Ensures-weaken (λ _ e. e) (λ _ s' h. h.0) (Ensures-lift _ s refl)))
          λ signature.
            Ensures-bind {Q = λ _. Here} (observe lib lib.now) _ (ensure (clock-Here s node))
              λ time s2 node2.
                Ensures-bind {Q = λ _. R} _ _
                  (Ensures-wrapping _ _ (
                    saves lib laws addresses sum distinct bound heads
                      (proposal current_block processed_txs time signature) s2 node2 later))
                  λ _ s3 after. ensure (after, refl)

  -- From a node that keeps the invariant, whose next index is a uint64, and in whichever order Go
  -- ranges over the pool, `ProposeNewBlock` ends, with the next block, with an error or in a panic,
  -- in a node that keeps it, and the index of the last block does not go down, if the sum is a
  -- uint64. The invariant is that of `HandleNewBlock`.
  pub propose_new_block-Reached :
      (s : Blockchain lib)
      → Here s
      → heads.current.index + 1 < uint64_mod
      → Ensures R
          (λ block s'. R s' × (block.index ≡ heads.current.index + 1))
          (propose_new_block order s)
  unfolding propose_new_block
  propose_new_block-Reached s node fits =
      let next : (heads.current.index + 1) % uint64_mod ≡ heads.current.index + 1 = omega arith in
      Ensures-gives _ _ heads.current
        (unfold effects in
          ground (
            arith,
            reads_current lib laws heads.current heads s node.inv.healthy.fine node.has_heads,
          ))
        (Ensures-gives _ _ _ (turn lib laws heads s node.inv.healthy.fine node.has_heads) (
          Ensures-if
            (not (
              if ltb heads.current.index heads.last.index
              then false
              else may_propose heads.current.index s.config.index))
            (fail (errorf "không đủ điều kiện để đề xuất block mới" ""))
            (wrapping "lỗi khi xử lý giao dịch từ mempool" (process_mempool_transactions order)
              >>= finish heads.current)
            (λ refused. ensure (here s node))
            λ allowed.
              Ensures-bind {Q = λ _. Here} _ _ (Ensures-wrapping _ _ (processes s node))
                λ processed_txs s1 node1.
                  Ensures-weaken (λ s' r. r) (λ block s' h. (h.0, h.1 ∙ next))
                    (builds heads.current processed_txs s1 node1 (omega arith))))
