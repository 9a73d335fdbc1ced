-- ===== src/Peer/Safety.antt =====
-- The invariant of a node under any messages of a peer
-- (the second goroutine of `runProtocol` in app/internal/p2pnetwork/p2pnetwork.go).
use go_blockchain_demo.Prelude.{
  ℕ, ◌≤◌, ◌<◌, String, refl, sym, subst, none, some, List, [], ◌∷◌, Outcome, ok, err, panic, ⊤,
  arith, effects, uint64_mod, ltb, lift, pure, inl, inr, Bool-cases, Ensures, ensure, Ensures-eq,
  Ensures-bind, Ensures-if, Ensures-lift, Ensures-weaken, Reads,
}
use go_blockchain_demo.Records.{slice_bytes, Block, Transaction}
use go_blockchain_demo.Ledger.{Distinct}
use go_blockchain_demo.Library.{Library}
use go_blockchain_demo.Library.Laws.{Laws}
use go_blockchain_demo.Mempool
use go_blockchain_demo.Signatures.{verify_transaction_signature}
use go_blockchain_demo.State.{Blockchain, call}
use go_blockchain_demo.Accounts.{get_account_from_trie}
use go_blockchain_demo.Transactions.{with_mempool, in_mempool, get_transaction_by_id_from_node}
use go_blockchain_demo.Transactions.Invariant.{IsProper}
use go_blockchain_demo.Chain.{
  get_last_block, save_last_block, get_block_from_trie, handle_new_block,
}
use go_blockchain_demo.Chain.Heads.{Heads, reads_last, save_block_at-Written}
use go_blockchain_demo.Chain.Invariant.{NodeAt, Reached, stays, outside, last-NodeAt}
use go_blockchain_demo.Chain.Acceptance.{handle_new_block-Reached}
use go_blockchain_demo.Peer.Messages.{
  Message, Incoming, Sender, logged, send, block_request, last_block_request, block_response,
  last_block_response, block_proposal_request, block_proposal_response, transaction_msg,
  transaction_response, transaction_request, handle_block_response,
  handle_block_proposal_request_msg, handle_last_block_response, handle_transaction_msg,
  handle_message, handle_messages,
}
use go_blockchain_demo.Peer.Handling.{
  Ensures-logged, Ensures-logged_reads, IsQuiet, get_block_from_trie-Reads,
  get_account_from_trie-Reads, with_mempool-Reads, get_transaction_by_id_from_node-Reads,
}
use go_blockchain_demo.Peer.Pooled.{pools}

module _ (lib : Library) (laws : Laws lib) (addresses : List String) (sum : ℕ) where
  -- A block whose index is a uint64, and a transaction of a positive amount between two different
  -- listed addresses; of the other messages nothing is asked.
  abbrev pub IsAllowed : Incoming → Type 0
  IsAllowed (some (last_block_response block)) = block.index < uint64_mod
  IsAllowed (some (block_proposal_response block)) = block.index < uint64_mod
  IsAllowed (some (transaction_msg tx)) =
      IsProper lib addresses (lib.hex_encode (slice_bytes tx.id)) tx
  IsAllowed _ = ⊤

  module _ (distinct : Distinct addresses) (bound : sum < uint64_mod)
      (order : List Transaction → List Transaction) (sender : Sender lib)
      (quiet : IsQuiet lib laws sender) where
    module _ (heads : Heads) (s : Blockchain lib)
        (node : NodeAt lib laws addresses sum heads s) where
      abbrev R : Blockchain lib → Type 0
      R = Reached lib laws addresses sum heads

      here : R s
      here = stays lib laws addresses sum heads s node

      called :
          {A : Type 0} (p : Outcome A × lib.World)
          → R (record s { world = p.1 })
          → Ensures R (λ _. R) (p.0, record s { world = p.1 })
      called (ok a, w) r = ensure r
      called (err e, w) r = ensure r
      called (panic, w) r = ensure r

      sends : (msg : Message) → Ensures R (λ _. R) (send sender msg s)
      sends msg =
          let (fine, disk) = quiet msg s.world node.inv.healthy.fine in
          let after : R (record s { world = (sender msg s.world).1 }) =
            stays lib laws addresses sum heads _
              (outside lib laws addresses sum heads s (sender msg s.world).1 node fine disk) in
          Ensures-logged {Q = λ _. R} (call lib (sender msg)) (λ _. pure tt)
            (called (sender msg s.world) after) λ _ s' r. ensure r

      last_block_read : Reads get_last_block s
      last_block_read =
          Ensures-eq (reads_last lib laws heads.last heads s node.inv.healthy.fine node.has_heads)
            (ensure refl)

      tells :
          (block : Block)
          → block.index < uint64_mod
          → Ensures R (λ _. R) (handle_last_block_response block s)
      unfolding handle_last_block_response save_last_block effects
      tells block fits = elim (Bool-cases (ltb heads.last.index block.index)) [
        | inl higher ↦
            let (w, saves, written) =
              save_block_at-Written lib laws "LAST_BLOCK" "lỗi khi lưu LAST_BLOCK" block s
                node.inv.healthy.fine in
            Ensures-eq {q = (ok tt, record s { world = w })}
              (ground (
                arith,
                reads_last lib laws block heads s node.inv.healthy.fine node.has_heads,
                higher,
                saves,
              ))
              (ensure (
                record heads { last = block },
                last-NodeAt lib laws addresses sum block heads s w node (ground (arith, higher))
                    fits written,
                ground (arith, higher),
              ))
        | inr lower ↦
            Ensures-eq {q = (ok tt, s)}
              (ground (
                arith,
                reads_last lib laws block heads s node.inv.healthy.fine node.has_heads,
                lower,
              ))
              (ensure here)
      ]

      takes_block :
          (block : Block) → Ensures R (λ _. R) (logged (handle_new_block block) (λ _. pure tt) s)
      takes_block block =
          Ensures-logged (handle_new_block block) (λ _. pure tt)
            (handle_new_block-Reached lib laws addresses sum distinct bound heads block s node)
            λ _ s' r. ensure r

      takes_transaction :
          (tx : Transaction)
          → IsProper lib addresses (lib.hex_encode (slice_bytes tx.id)) tx
          → Ensures R (λ _. R) (handle_transaction_msg order tx s)
      unfolding handle_transaction_msg
      takes_transaction tx proper =
          Ensures-logged_reads (get_account_from_trie tx.from) _ here
            (get_account_from_trie-Reads lib laws tx.from s node.inv.healthy)
            λ from_account.
              Ensures-logged_reads
                (lift (verify_transaction_signature lib tx from_account.public_key)) _ here
                (Ensures-weaken (λ _ e. e) (λ _ s' h. h.0) (Ensures-lift _ s refl))
                λ is_valid.
                  Ensures-if is_valid
                    (logged (in_mempool (Mempool.add_transaction lib tx))
                      (λ _. with_mempool (Mempool.print_mempool order)))
                    (pure tt)
                    (λ valid.
                      Ensures-logged (in_mempool (Mempool.add_transaction lib tx))
                        (λ _. with_mempool (Mempool.print_mempool order))
                        (pools lib laws addresses sum heads tx s node proper)
                        λ _ s' r.
                          Ensures-weaken (λ s2 e. subst R (sym e) r) (λ _ s2 e. subst R (sym e) r)
                            (with_mempool-Reads lib laws (Mempool.print_mempool order) s'))
                    (λ invalid. ensure here)

      takes :
          (msg : Incoming) → IsAllowed msg → Ensures R (λ _. R) (handle_message order sender msg s)
      unfolding handle_message handle_block_response handle_block_proposal_request_msg
      takes none allowed = ensure here
      takes (some (block_request request)) allowed =
          Ensures-logged_reads (get_block_from_trie request.block_id) _ here
            (get_block_from_trie-Reads lib laws request.block_id s node.inv.healthy)
            λ block. sends (block_response block)
      takes (some (last_block_request _)) allowed =
          Ensures-logged_reads get_last_block _ here last_block_read
            λ last_block. sends (last_block_response last_block)
      takes (some (block_response block)) allowed = takes_block block
      takes (some (last_block_response block)) allowed = tells block allowed
      takes (some (block_proposal_request block)) allowed = takes_block block
      takes (some (block_proposal_response block)) allowed = tells block allowed
      takes (some (transaction_msg tx)) allowed = takes_transaction tx allowed
      takes (some (transaction_request tx_id)) allowed =
          Ensures-logged_reads (get_transaction_by_id_from_node tx_id) _ here
            (get_transaction_by_id_from_node-Reads lib laws tx_id s node.inv.healthy)
            λ tx. sends (transaction_response tx)
      takes (some (transaction_response tx)) allowed = ensure here

    -- What a node reaches from where it is, it reaches from where it was.
    onward :
        (old heads : Heads) (s : Blockchain lib)
        → old.last.index ≤ heads.last.index
        → Reached lib laws addresses sum heads s
        → Reached lib laws addresses sum old s
    onward old heads s le (heads', node, le') = (heads', node, omega arith)

    abbrev AllAllowed : List Incoming → Type 0
    AllAllowed [] = ⊤
    AllAllowed (msg ∷ msgs) = IsAllowed msg × AllAllowed msgs

    -- A node that keeps its invariant keeps it under any messages of a peer, in any order, if the sum
    -- is a uint64, sending leaves the disk as it is, the indices of blocks are uint64s, and the
    -- transactions that come have a positive amount and go between two different listed addresses.
    -- However the loop ends, the ledger is well formed with the same sum, the heads are in order, all
    -- is on the disk, and the index of the last block did not go down.
    pub handle_messages-Reached :
        (msgs : List Incoming) (heads : Heads) (s : Blockchain lib)
        → AllAllowed msgs
        → NodeAt lib laws addresses sum heads s
        → Ensures
            (Reached lib laws addresses sum heads)
            (λ _. Reached lib laws addresses sum heads)
            (handle_messages order sender msgs s)
    unfolding handle_messages
    handle_messages-Reached [] heads s allowed node = ensure (here heads s node)
    handle_messages-Reached (msg ∷ msgs) heads s allowed node =
        Ensures-bind (handle_message order sender msg) _ (takes heads s node msg allowed.0)
          λ _ s' r.
            let (heads', node', le) = r in
            Ensures-weaken (λ s2. onward heads heads' s2 le) (λ _ s2. onward heads heads' s2 le)
              (handle_messages-Reached msgs heads' s' allowed.1 node')
