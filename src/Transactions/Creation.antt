-- ===== src/Transactions/Creation.antt =====
-- `CreateAndAddTransaction` of app/internal/blockchain/tx.go: what gets into the pool.
use go_blockchain_demo.Prelude.{
  String, ◌≡◌, ap, ◌∙◌, none, some, List, true, Outcome, ok, arith, effects, lookup, insert, ◌>>◌,
  pure,
}
use go_blockchain_demo.Records.{slice_bytes, Account, Transaction}
use go_blockchain_demo.Library.{Library}
use go_blockchain_demo.Library.Laws.{Laws}
use go_blockchain_demo.Mempool
use go_blockchain_demo.Signatures.{hash, sign_transaction, verify_transaction_signature}
use go_blockchain_demo.Signatures.RoundTrip.{
  IsKeyPair, verify_transaction_signature-sign_transaction,
}
use go_blockchain_demo.State.{Blockchain, Mempool}
use go_blockchain_demo.State.View.{IsHealthy}
use go_blockchain_demo.Accounts.{get_account_from_trie}
use go_blockchain_demo.Accounts.Laws.{account_at, get_account_from_trie-found}
use go_blockchain_demo.Transactions.Defs.{
  new_transaction, broadcast, create_and_add_transaction, with_mempool,
}

module _ (lib : Library) (laws : Laws lib) where
  -- The transaction that is made, before it is signed.
  abbrev pub draft : String → String → lib.Float → lib.World → Transaction
  draft from to amount w =
      let tx : Transaction = record {
        id = none;
        from = from;
        to = to;
        amount = lib.float_to_uint64 amount;
        timestamp = (lib.now w).0;
        signature = "";
      } in
      record tx { id = some (hash lib tx) }

  created :
      (from to : String) (amount : lib.Float) (private_key_hex signature : String)
      (s : Blockchain lib)
      → sign_transaction lib (draft from to amount s.world) private_key_hex ≡ ok signature
      → new_transaction from to amount private_key_hex s ≡ (
        ok (record (draft from to amount s.world) { signature = signature }),
        record s { world = (lib.now s.world).1 },
      )
  unfolding new_transaction effects
  created from to amount private_key_hex signature s signs = ground (arith, signs)

  -- A broadcast leaves the pool as it is.
  broadcast-mempool :
      (tx : Transaction) (s : Blockchain lib) → (broadcast tx s).1.mempool ≡ s.mempool
  unfolding broadcast effects
  broadcast-mempool tx s = ground arith

  -- What comes after the transaction is in the pool leaves the pool as it is.
  rest-mempool :
      (order : List Transaction → List Transaction) (tx : Transaction) (s : Blockchain lib)
      → (((with_mempool (Mempool.print_mempool order)) >> broadcast tx >> pure tx) s).1.mempool
        ≡ s.mempool
  unfolding broadcast effects
  rest-mempool order tx s = ground arith

  abbrev with_transaction : Transaction → Mempool → Mempool
  with_transaction tx mp = record mp {
    transactions = insert (lib.hex_encode (slice_bytes tx.id)) tx mp.transactions;
  }

  -- A transaction that was made and is verified gets into the pool.
  pooled :
      (order : List Transaction → List Transaction) (from to : String) (amount : lib.Float)
      (private_key_hex : String) (tx : Transaction) (w : lib.World) (account : Account)
      (s : Blockchain lib) (mp : Mempool)
      → new_transaction from to amount private_key_hex s ≡ (ok tx, record s { world = w })
      → get_account_from_trie from (record s { world = w }) ≡ (ok account, record s { world = w })
      → verify_transaction_signature lib tx account.public_key ≡ ok true
      → s.mempool ≡ some mp
      → lookup (lib.hex_encode (slice_bytes tx.id)) mp.transactions ≡ none
      → create_and_add_transaction order from to amount private_key_hex s
        ≡ ((with_mempool (Mempool.print_mempool order)) >> broadcast tx >> pure tx)
            (record s { world = w; mempool = some (with_transaction tx mp) })
  unfolding create_and_add_transaction Mempool.add_transaction effects
  pooled order from to amount private_key_hex tx w account s mp makes reads verified pool absent =
      ground (arith, makes, reads, verified, pool, absent)

  module _ (private_key_hex public_key_bytes : String)
      (pair : IsKeyPair lib private_key_hex public_key_bytes) where
    -- At a healthy node, which is on a fine disk also after the clock is read, with a pool that does
    -- not have the new ID, and with the private key of the sender's account: the pool gets one
    -- transaction, from the sender to the receiver over the amount, under the text of its hash, that
    -- the key of the account verifies; also where the printing panics or the broadcast fails.
    pub create_and_add_transaction-pools :
        (order : List Transaction → List Transaction) (from to : String) (amount : lib.Float)
        (account : Account) (s : Blockchain lib) (mp : Mempool)
        → IsHealthy lib laws s
        → laws.IsFine (lib.now s.world).1
        → account_at lib laws s from ≡ some account
        → account.public_key ≡ lib.hex_encode public_key_bytes
        → s.mempool ≡ some mp
        → lookup (lib.hex_encode (slice_bytes (draft from to amount s.world).id)) mp.transactions
          ≡ none
        → (signature : String) × (verify_transaction_signature lib
              (record (draft from to amount s.world) { signature = signature })
              account.public_key
            ≡ ok true)
          × ((create_and_add_transaction order from to amount private_key_hex s).1.mempool
              ≡ some (record mp {
                transactions =
                    insert
                      (lib.hex_encode (slice_bytes (draft from to amount s.world).id))
                      (record (draft from to amount s.world) { signature = signature })
                      mp.transactions;
              }))
    create_and_add_transaction-pools order from to amount account s mp healthy fine there key pool
          absent =
        let (signature, signs, verified) =
          verify_transaction_signature-sign_transaction lib laws private_key_hex public_key_bytes
            pair (draft from to amount s.world) in
        let tx : Transaction = record (draft from to amount s.world) { signature = signature } in
        let w : lib.World = (lib.now s.world).1 in
        let accepted : verify_transaction_signature lib tx account.public_key ≡ ok true =
          ap (verify_transaction_signature lib tx) key ∙ verified in
        let adds =
          pooled order from to amount private_key_hex tx w account s mp
            (created from to amount private_key_hex signature s signs)
            (get_account_from_trie-found lib laws (record s { world = w }) from account
              (record { fine = fine; opened = healthy.opened }) there)
            accepted pool absent in
        (
          signature,
          accepted,
          ap (λ (r : Outcome Transaction × Blockchain lib). r.1.mempool) adds
              ∙ rest-mempool order tx
                  (record s { world = w; mempool = some (with_transaction tx mp) }),
        )
