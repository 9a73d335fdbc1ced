-- ===== src/Examples/Peers.antt =====
-- Peers of the example node.
use Prim.Native.String.{◌++◌}
use go_blockchain_demo.Prelude.{
  ℕ, ◌≡◌, ◌≤◌, refl, none, some, [], ◌∷◌, true, inl, ok, err, errorf, lookup, insert, str_eq,
  if◌then◌else◌, ne_by_test,
}
use go_blockchain_demo.Records.{Account, Transaction}
use go_blockchain_demo.Library.Memory.{memory, memory_laws, World}
use go_blockchain_demo.Signatures.{verify_transaction_signature}
use go_blockchain_demo.Peer.{
  PeerConfig, P2pNetwork, new_p2p_network, broadcast_transaction, set_peer_rw,
  handle_transaction_msg, contains_text, handle_last_block_response, get_all_peer_rws,
  clean_invalid_peer_rws, remove_peer_rw,
}
use go_blockchain_demo.Peer.LastBlock.{told, handle_last_block_response-told}
use go_blockchain_demo.Peer.Cleaning.{lookup-clean_invalid_peer_rws}
use go_blockchain_demo.Chain.Heads.{HasHeads}
use go_blockchain_demo.State.{accounts}
use go_blockchain_demo.State.View.{view}
use go_blockchain_demo.Accounts.Laws.{account_at}
use go_blockchain_demo.Api.{handle_get_account, account, failure}
use go_blockchain_demo.Api.Reading.{handle_get_account_lem}
use go_blockchain_demo.Peer.Broadcast.{started, connected, broadcast_transaction-Reachable}
use go_blockchain_demo.Peer.Pooling.{
  handle_transaction_msg-unsigned, handle_transaction_msg-replayed,
}
use go_blockchain_demo.Examples.Node.{
  alice, payment, pool, start, start-IsHealthy, block_of, heads, start-HasHeads,
}

abbrev peer_config : PeerConfig
peer_config = record {
  private_key_hex = "k";
  nodes = [];
  max_peers = 10;
  name = "node";
  listen_addr = ":30303";
}

-- Connections and channels are numbers here.
abbrev fresh : P2pNetwork memory ℕ ℕ
fresh = record { config = peer_config; private_key = "k"; tx_channels = []; peer_rws = [] }

broadcast_transaction-Reachable_example :
    broadcast_transaction (λ c. true) (set_peer_rw "peer" 1 fresh) payment
    ≡ ([], err (errorf "không có peer nào để gửi transaction" ""))
unfolding new_p2p_network
broadcast_transaction-Reachable_example =
    broadcast_transaction-Reachable (λ c. true) (set_peer_rw "peer" 1 fresh) payment
      (connected "peer" 1 fresh (started peer_config fresh refl))

abbrev unsigned : Transaction
unsigned = record payment { id = some "t9"; signature = "px" }

handle_transaction_msg-unsigned_example :
    handle_transaction_msg (λ txs. txs) unsigned start ≡ (ok tt, start)
unfolding verify_transaction_signature
handle_transaction_msg-unsigned_example =
    handle_transaction_msg-unsigned memory memory_laws (λ txs. txs) unsigned alice start
      start-IsHealthy refl (inl refl)

handle_transaction_msg-replayed_example :
    (handle_transaction_msg (λ txs. txs) (record payment { id = some "t9" }) start).1
    ≡ record start {
      mempool = some (record pool {
        transactions = insert "t9" (record payment { id = some "t9" }) pool.transactions;
      });
    }
unfolding verify_transaction_signature lookup
handle_transaction_msg-replayed_example =
    handle_transaction_msg-replayed memory memory_laws (λ txs. txs) payment alice "t9" start pool
      start-IsHealthy refl refl refl refl

handle_last_block_response-told_example :
    (w' : World) × (handle_last_block_response (block_of 4 []) start
      ≡ (ok tt, record start { world = w' }))
    × memory_laws.IsFine w'
    × HasHeads memory memory_laws (told (block_of 4 []) heads) w'
    × (2 ≤ (told (block_of 4 []) heads).last.index)
handle_last_block_response-told_example =
    handle_last_block_response-told memory memory_laws (block_of 4 []) heads start tt start-HasHeads

lookup-clean_invalid_peer_rws_example :
    lookup "peer" (
      get_all_peer_rws (
        clean_invalid_peer_rws ("peer" ∷ []) (remove_peer_rw "other" (set_peer_rw "peer" 1 fresh))))
    ≡ (if contains_text "peer" ("peer" ∷ [])
        then (if str_eq "other" "peer"
            then none
            else if str_eq "peer" "peer"
            then some 1
            else lookup "peer" (get_all_peer_rws fresh))
        else none)
lookup-clean_invalid_peer_rws_example =
    lookup-clean_invalid_peer_rws ("peer" ∷ []) "other" "peer" "peer" 1 fresh

handle_get_account_lem_example :
    ((a : Account)
      → account_at memory memory_laws start "alice" ≡ some a
      → handle_get_account "GET" ("/api/account/" ++ "alice") start ≡ (
        ok (record { status = 200; body = account a.address a.balance a.public_key a.nonce }),
        start,
      ))
    × (view memory memory_laws accounts start "alice" ≡ none
        → handle_get_account "GET" ("/api/account/" ++ "alice") start ≡ (
          ok (record {
            status = 404;
            body =
                failure "Lỗi khi lấy tài khoản: %v"
                  (errorf "không tìm thấy account với địa chỉ: %s" "alice");
          }),
          start,
        ))
handle_get_account_lem_example =
    handle_get_account_lem memory memory_laws "alice" start start-IsHealthy (ne_by_test _ _ refl)
