-- ===== src/Transactions/Laws.antt =====
-- The transaction trie under the laws of the libraries.
use go_blockchain_demo.Prelude.{
  String, ◌≡◌, ◌≢◌, Option, none, some, Bool, true, false, ok, arith, effects,
}
use go_blockchain_demo.Records.{slice_bytes, Transaction}
use go_blockchain_demo.Library.{Library}
use go_blockchain_demo.Library.Laws.{Laws}
use go_blockchain_demo.State.{Blockchain, Slot}
use go_blockchain_demo.State.Laws.{commit_to_database_lem, restore_lem}
use go_blockchain_demo.State.View.{IsHealthy, Saved, view, put_trie-Saved}
use go_blockchain_demo.Transactions.Defs.{save_transaction_to_trie, is_transaction_exist}

abbrev pub is_some {ℓ} : {A : Type ℓ} → Option A → Bool
is_some none = false
is_some (some _) = true

module _ (lib : Library) (laws : Laws lib) where
  -- Saving a transaction that is not there writes it under its ID.
  pub save_transaction_to_trie-Saved :
      (s : Blockchain lib) (tx : Transaction) (value : lib.Blob)
      → IsHealthy lib laws s
      → lib.transaction_codec.marshal tx ≡ ok value
      → view lib laws Slot.transactions s (slice_bytes tx.id) ≢ some value
      → (s' : Blockchain lib) × (save_transaction_to_trie tx s ≡ (ok tt, s'))
        × Saved lib laws Slot.transactions (slice_bytes tx.id) value s s'
  unfolding save_transaction_to_trie effects
  save_transaction_to_trie-Saved s tx value healthy encodes new =
      let (t, here, open_t) = healthy.opened Slot.transactions in
      let key : String = slice_bytes tx.id in
      let (t1, t2, root, w, writes, committed) =
        commit_to_database_lem lib laws Slot.transactions s t "lỗi khi cập nhật transaction trie"
          key value healthy.fine here open_t (λ q. new (rw here q)) in
      let (w', puts, fine', names, kept) =
        laws.db_put_lem "TX_ROOT_HASH" (lib.hash_bytes root) w committed.fine in
      let (u, opens, open_u, same) =
        restore_lem lib laws (record s { world = w'; tx_trie = some t2 }) root (laws.contents t1)
          fine' (kept root (laws.contents t1) committed.persisted) in
      (
        record s { world = w'; tx_trie = some u },
        ground (arith, encodes, committed.runs, puts, opens),
        put_trie-Saved lib laws Slot.transactions key value s t u root (laws.contents t1) w' healthy
            here writes fine' open_u same (λ k. rw (← committed.same k) (names k))
            (kept root _ committed.persisted) (λ h d p. kept h d (committed.kept h d p)),
      )

  -- Whether a transaction exists is whether the trie holds a value under its ID.
  pub is_transaction_exist_lem :
      (s : Blockchain lib) (id : String)
      → IsHealthy lib laws s
      → is_transaction_exist (some id) s ≡ (ok (is_some (view lib laws Slot.transactions s id)), s)
  unfolding is_transaction_exist effects
  is_transaction_exist_lem s id healthy =
      let (t, here, open_t) = healthy.opened Slot.transactions in
      ground (arith, here, laws.trie_get_lem t id s.world healthy.fine open_t)
