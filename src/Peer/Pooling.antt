-- ===== src/Peer/Pooling.antt =====
-- How a transaction of a peer gets into the pool: the case of `TransactionMsg` in
-- app/internal/p2pnetwork/p2pnetwork.go.
use go_blockchain_demo.Prelude.{
  String, ◌≡◌, ◌⊎◌, none, some, true, false, List, ok, err, Error, arith, effects, lookup, insert,
  inl, inr,
}
use go_blockchain_demo.Records.{Account, Transaction}
use go_blockchain_demo.Library.{Library}
use go_blockchain_demo.Library.Laws.{Laws}
use go_blockchain_demo.Mempool
use go_blockchain_demo.Signatures.{verify_transaction_signature, message}
use go_blockchain_demo.State.{Blockchain, Mempool}
use go_blockchain_demo.State.View.{IsHealthy}
use go_blockchain_demo.Accounts.Laws.{account_at, get_account_from_trie-found}
use go_blockchain_demo.Peer.Messages.{handle_transaction_msg}

module _ (lib : Library) (laws : Laws lib) where
  -- At a healthy node with a pool and the account of the sender, a transaction that the key of the
  -- account does not verify, with a result or with an error, leaves the node as it is.
  pub handle_transaction_msg-unsigned :
      (order : List Transaction → List Transaction) (tx : Transaction) (account : Account)
      (s : Blockchain lib)
      → IsHealthy lib laws s
      → account_at lib laws s tx.from ≡ some account
      → (verify_transaction_signature lib tx account.public_key ≡ ok false)
        ⊎ ((e : Error) × (verify_transaction_signature lib tx account.public_key ≡ err e))
      → handle_transaction_msg order tx s ≡ (ok tt, s)
  unfolding handle_transaction_msg effects
  handle_transaction_msg-unsigned order tx account s healthy there (inl fails) =
      ground (arith, get_account_from_trie-found lib laws s tx.from account healthy there, fails)
  handle_transaction_msg-unsigned order tx account s healthy there (inr (e, fails)) =
      ground (arith, get_account_from_trie-found lib laws s tx.from account healthy there, fails)

  -- At a healthy node with a pool, if the key of the sender's account verifies a transaction, then
  -- the node puts that transaction with any other ID that is not in the pool into the pool, under
  -- the text of that ID: the signature does not cover the ID.
  pub handle_transaction_msg-replayed :
      (order : List Transaction → List Transaction) (tx : Transaction) (account : Account)
      (id : String) (s : Blockchain lib) (mp : Mempool)
      → IsHealthy lib laws s
      → account_at lib laws s tx.from ≡ some account
      → verify_transaction_signature lib tx account.public_key ≡ ok true
      → s.mempool ≡ some mp
      → lookup (lib.hex_encode id) mp.transactions ≡ none
      → (handle_transaction_msg order (record tx { id = some id }) s).1 ≡ record s {
        mempool = some (record mp {
          transactions = insert (lib.hex_encode id) (record tx { id = some id }) mp.transactions;
        });
      }
  unfolding handle_transaction_msg verify_transaction_signature message Mempool.add_transaction
      effects
  handle_transaction_msg-replayed order tx account id s mp healthy there signed pool absent =
      ground (
        arith,
        get_account_from_trie-found lib laws s tx.from account healthy there,
        signed,
        pool,
        absent,
      )
