-- ===== src/Examples/Nodes.antt =====
-- Whole rounds of the example node: blocks, proposals, messages, and answers of other peers.
use go_blockchain_demo.Prelude.{
  Assoc, In, ◌↔◌, ◌≢◌, ◌≡◌, refl, true, Option, none, some, [], ◌∷◌, List, ok, Ensures, arith,
  lookup, String,
}
use go_blockchain_demo.Records.{Transaction}
use go_blockchain_demo.Library.{P2pNetworkInterface, response}
use go_blockchain_demo.Library.Memory.{memory, memory_laws, World}
use go_blockchain_demo.State.{Blockchain}
use go_blockchain_demo.State.Chain.{SameDisk-refl}
use go_blockchain_demo.Chain.{handle_new_block, propose_new_block}
use go_blockchain_demo.Chain.Invariant.{Reached}
use go_blockchain_demo.Chain.Acceptance.{handle_new_block-Reached}
use go_blockchain_demo.Chain.Proposing.{propose_new_block-Reached}
use go_blockchain_demo.Transactions.{process_transaction_by_id}
use go_blockchain_demo.Transactions.Transfer.{Settled}
use go_blockchain_demo.Transactions.Unsigned.{process_transaction_by_id-unsigned}
use go_blockchain_demo.Peer.{
  handle_messages, P2pNetwork, Sender, Incoming, block_proposal_request, last_block_response,
  transaction_request, Environment, exchange, sent, send_error, answer, other_code,
  network_interface,
}
use go_blockchain_demo.Peer.Safety.{handle_messages-Reached}
use go_blockchain_demo.Peer.Answers.{Answers, network_interface-Answers}
use go_blockchain_demo.Examples.Node.{
  alice, bob, payment, pool, start, start-CanSettle, start-IsHealthy, addresses, addresses-Distinct,
  block_of, heads, start-NodeAt,
}

abbrev Kept : Blockchain memory → Type 0
Kept = Reached memory memory_laws addresses 15 heads

handle_new_block-Reached_example :
    Ensures Kept (λ _. Kept) (handle_new_block (block_of 3 ("t1" ∷ [])) start)
handle_new_block-Reached_example =
    handle_new_block-Reached memory memory_laws addresses 15 addresses-Distinct (omega arith) heads
      (block_of 3 ("t1" ∷ [])) start start-NodeAt

propose_new_block-Reached_example :
    Ensures Kept (λ block s'. Kept s' × (block.index ≡ 3)) (propose_new_block (λ txs. txs) start)
propose_new_block-Reached_example =
    propose_new_block-Reached memory memory_laws addresses 15 addresses-Distinct (omega arith) heads
      (λ txs. txs) (λ txs tx h. h) start start-NodeAt (omega arith)

abbrev sender : Sender memory
sender = λ msg w. (ok tt, w)

abbrev messages : List Incoming
messages =
    none
    ∷ some (block_proposal_request (block_of 3 ("t1" ∷ [])))
    ∷ some (last_block_response (block_of 7 []))
    ∷ some (transaction_request "t1")
    ∷ []

handle_messages-Reached_example :
    Ensures Kept (λ _. Kept) (handle_messages (λ txs. txs) sender messages start)
handle_messages-Reached_example =
    handle_messages-Reached memory memory_laws addresses 15 addresses-Distinct (omega arith)
      (λ txs. txs) sender (λ msg w fine. (fine, SameDisk-refl memory memory_laws w)) messages heads
      start (tt, (tt, (omega arith, (tt, tt)))) start-NodeAt

-- A payment of which nothing but the addresses and the amount is right.
abbrev forged : Transaction
forged = record payment { id = some "t9"; signature = "forged" }

abbrev forger : P2pNetworkInterface World
forger = record {
  broadcast_transaction = λ tx w. (ok tt, w);
  request_transaction = λ id w. (response forged, w);
}

abbrev targeted : Blockchain memory
targeted = record start { p2p_network = some forger }

process_transaction_by_id-unsigned_example :
    (s' : Blockchain memory) × (process_transaction_by_id "t2" targeted ≡ (ok tt, s'))
    × Settled memory memory_laws forged alice bob targeted s'
unfolding lookup
process_transaction_by_id-unsigned_example =
    process_transaction_by_id-unsigned memory memory_laws targeted "t2" "t2" pool forger forged
      alice bob (record { fine = tt; opened = start-IsHealthy.opened }) refl refl refl refl refl
      refl
      (record {
        healthy = record { fine = tt; opened = start-IsHealthy.opened };
        well_formed = start-CanSettle.well_formed;
        sender = refl;
        receiver = refl;
        distinct = start-CanSettle.distinct;
        positive = omega arith;
        covered = omega arith;
        fits = omega arith;
        is_new = refl;
      })

-- The first peer closes its connection, and the second has the payment.
abbrev asking : Environment memory String
asking id peers w = (
  exchange "a" (send_error "shutting down") other_code
      ∷ exchange "c" sent (answer (some payment))
      ∷ [],
  w,
)

abbrev table : World → P2pNetwork memory (Option String) String
table w = record {
  config = record {
    private_key_hex = "k";
    nodes = [];
    max_peers = 10;
    name = "node";
    listen_addr = ":30303";
  };
  private_key = "k";
  tx_channels = [];
  peer_rws = ("a", some "left") ∷ ("b", none) ∷ ("c", some "right") ∷ [];
}

network_interface-Answers_example :
    (peers : Assoc String) × ((peer_id : String) (rw : String)
      → In (peer_id, rw) peers ↔ In (peer_id, some rw) (table start.world).peer_rws)
    × ((tx : Transaction) (w' : World)
        → ((network_interface asking (λ (c : String). true) table).request_transaction "t1"
              start.world
            ≡ (response tx, w'))
          ↔ ((◌≢◌ {A = String} "t1" "")
              × ((table start.world).peer_rws ≢ [])
              × (start.world ≡ w')
              × Answers
                  (exchange "a" (send_error "shutting down") other_code
                    ∷ exchange "c" sent (answer (some payment))
                    ∷ [])
                  tx))
network_interface-Answers_example =
    network_interface-Answers {lib = memory} asking (λ c. true) table "t1" start.world
