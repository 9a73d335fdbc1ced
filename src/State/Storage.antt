-- ===== src/State/Storage.antt =====
-- `RestoreTrieFromRootHash`, and what SaveAccountToTrie, SaveTransactionToTrie and SaveBlockToTrie
-- have in common: update a trie, commit it, and write the nodes to the database.
use go_blockchain_demo.Prelude.{
  ℕ, zero, suc, String, some, ok, err, panic, Action, pure, panics, gets, modify, attempt, wrapping,
  ◌>>=◌, ◌>>◌,
}
use go_blockchain_demo.Library.{Library}
use go_blockchain_demo.State.Defs.{Blockchain, Slot, deref, trie_at, put_trie, call, observe}

module _ (lib : Library) where
  -- The loop of `RestoreTrieFromRootHash` with `n` rounds left, and the last call behind it.
  unfoldable pub restore_loop : ℕ → lib.Hash → Action (Blockchain lib) lib.Trie
  restore_loop zero root_hash = call lib (lib.trie_new root_hash)
  restore_loop (suc n) root_hash = do
    r ← attempt (call lib (lib.trie_new root_hash))
    elim r [ ok tr ↦ pure tr | err _ ↦ restore_loop n root_hash | panic ↦ panics ]

  -- `bc.RestoreTrieFromRootHash(rootHash)`; the sleeps of 100 ms between the calls change no state.
  unfoldable pub restore_trie_from_root_hash : lib.Hash → Action (Blockchain lib) lib.Trie
  unfolding restore_loop
  restore_trie_from_root_hash root_hash = restore_loop 3 root_hash

  -- Update one trie and commit it to the database. The trie that was committed stays in its field,
  -- and is not to be read, until it is opened again. `text` is that of the error of the update.
  unfoldable pub commit_to_database :
      Slot → String → String → lib.Blob → Action (Blockchain lib) lib.Hash
  commit_to_database slot text key value = do
    tr ← (← gets (λ s. deref (trie_at lib slot s)))
    updated ← observe lib (lib.trie_update tr key value)
    let (root, nodes, committed) = lib.trie_commit updated
    modify (put_trie lib slot (some committed))
    trie_db ← wrapping text (call lib (lib.triedb_update lib.new_triedb root nodes))
    wrapping "lỗi khi commit trie database" (call lib (lib.triedb_commit trie_db root))
    pure root
