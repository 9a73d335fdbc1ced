-- ===== src/Peer/Messages.antt =====
-- The protocol of app/internal/p2pnetwork/p2pnetwork.go: one function for each round of the four
-- goroutines of `runProtocol`. Where a round logs an error and goes on, the action ends well.
use go_blockchain_demo.Prelude.{
  ◌+◌, ◌%◌, String, Option, none, some, List, [], ◌∷◌, Outcome, ok, err, panic, Action, ⊤, pure,
  panics, lift, attempt, ◌>>=◌, ◌>>◌, ltb, if◌then◌else◌, uint64_mod,
}
use go_blockchain_demo.Records.{Transaction, Block}
use go_blockchain_demo.Library.{Library}
use go_blockchain_demo.Mempool
use go_blockchain_demo.Signatures.{verify_transaction_signature}
use go_blockchain_demo.State.{Blockchain, call}
use go_blockchain_demo.Accounts.{get_account_from_trie}
use go_blockchain_demo.Transactions.{with_mempool, in_mempool, get_transaction_by_id_from_node}
use go_blockchain_demo.Chain.{
  block_key, get_last_block, get_current_block, get_block_from_trie, save_last_block,
  handle_new_block, propose_new_block,
}

-- `type BlockRequest struct`: the field `Type` is named `kind`.
pub record BlockRequest : Type 0 where
  pub kind : String
  pub block_id : String

-- The messages by their codes, `BlockRequestMsg` to `TransactionResponseMsg`.
pub data Message : Type 0 where
  block_request last_block_request : BlockRequest → Message
  block_response last_block_response : Block → Message
  block_proposal_request block_proposal_response : Block → Message
  transaction_msg transaction_response : Transaction → Message
  transaction_request : String → Message

-- A message as it is read: one whose payload cannot be decoded, or whose code has no case, is `none`.
abbrev pub Incoming : Type 0
Incoming = Option Message

-- `p2p.Send(rw, code, data)`, on the connection of a peer
abbrev pub Sender : Library → Type 0
Sender lib = Message → lib.World → Outcome ⊤ × lib.World

module _ {lib : Library} where
  -- `if err != nil { log.Printf(…); continue }`, and the rest of the round
  abbrev pub logged :
      {A : Type 0}
      → Action (Blockchain lib) A
      → (A → Action (Blockchain lib) ⊤)
      → Action (Blockchain lib) ⊤
  logged m k = do r ← attempt m; elim r [ ok a ↦ k a | err _ ↦ pure tt | panic ↦ panics ]

  abbrev pub send : Sender lib → Message → Action (Blockchain lib) ⊤
  send sender msg = logged (call lib (sender msg)) (λ _. pure tt)

  -- `p.handleBlockResponse(peer, block)` and `p.handleBlockProposalRequestMsg(peer, block)`
  unfoldable pub handle_block_response : Block → Action (Blockchain lib) ⊤
  handle_block_response block = logged (handle_new_block block) (λ _. pure tt)

  unfoldable pub handle_block_proposal_request_msg : Block → Action (Blockchain lib) ⊤
  handle_block_proposal_request_msg block = logged (handle_new_block block) (λ _. pure tt)

  -- `p.handleLastBlockResponse(peer, block)`
  unfoldable pub handle_last_block_response : Block → Action (Blockchain lib) ⊤
  handle_last_block_response block = logged get_last_block λ last_block.
      if ltb last_block.index block.index
      then logged (save_last_block block) (λ _. pure tt)
      else pure tt

  -- The case of `TransactionMsg`
  unfoldable pub handle_transaction_msg :
      (List Transaction → List Transaction) → Transaction → Action (Blockchain lib) ⊤
  handle_transaction_msg order tx = logged (get_account_from_trie tx.from) λ from_account.
      logged (lift (verify_transaction_signature lib tx from_account.public_key)) λ is_valid.
        if is_valid
        then logged (in_mempool (Mempool.add_transaction lib tx))
            (λ _. with_mempool (Mempool.print_mempool order))
        else pure tt

  -- The `switch` of the goroutine that reads messages
  unfoldable pub handle_message :
      (List Transaction → List Transaction) → Sender lib → Incoming → Action (Blockchain lib) ⊤
  unfolding handle_block_response handle_block_proposal_request_msg handle_last_block_response
      handle_transaction_msg
  handle_message order sender none = pure tt
  handle_message order sender (some (block_request request)) =
      logged (get_block_from_trie request.block_id) λ block. send sender (block_response block)
  handle_message order sender (some (last_block_request _)) =
      logged get_last_block λ last_block. send sender (last_block_response last_block)
  handle_message order sender (some (block_response block)) = handle_block_response block
  handle_message order sender (some (last_block_response block)) = handle_last_block_response block
  handle_message order sender (some (block_proposal_request block)) =
      handle_block_proposal_request_msg block
  handle_message order sender (some (block_proposal_response block)) =
      handle_last_block_response block
  handle_message order sender (some (transaction_msg tx)) = handle_transaction_msg order tx
  handle_message order sender (some (transaction_request tx_id)) =
      logged (get_transaction_by_id_from_node tx_id) λ tx. send sender (transaction_response tx)
  handle_message order sender (some (transaction_response tx)) = pure tt

  -- The loop of that goroutine, over the messages that it reads: an error is logged, and the loop
  -- goes on.
  unfoldable pub handle_messages :
      (List Transaction → List Transaction) → Sender lib → List Incoming → Action (Blockchain lib) ⊤
  unfolding handle_message
  handle_messages order sender [] = pure tt
  handle_messages order sender (msg ∷ msgs) = do
    handle_message order sender msg
    handle_messages order sender msgs

  -- A round of the goroutine that asks for the last block
  unfoldable pub request_last_block : Sender lib → Action (Blockchain lib) ⊤
  request_last_block sender =
      send sender (last_block_request (record { kind = "last_block"; block_id = "" }))

  -- A round of the goroutine that proposes blocks
  unfoldable pub propose_round :
      (List Transaction → List Transaction) → Sender lib → Action (Blockchain lib) ⊤
  propose_round order sender = do
    with_mempool (Mempool.print_mempool order)
    logged (propose_new_block order)
        λ block. if ltb 0 block.index then send sender (block_proposal_request block) else pure tt

  -- A round of the goroutine that asks for the next block
  unfoldable pub request_next_block : Sender lib → Action (Blockchain lib) ⊤
  request_next_block sender = logged get_current_block λ current_block.
      logged get_last_block λ last_block.
        if ltb current_block.index last_block.index
        then send sender (
            block_request (record {
              kind = "request";
              block_id = block_key ((current_block.index + 1) % uint64_mod);
            }))
        else pure tt
