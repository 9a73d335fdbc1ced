-- ===== src/Chain/Lookup.antt =====
-- Reading back a block that `SaveBlockToTrie` of app/internal/blockchain/chain.go saved.
use text.Mathlib.TextLemmas.{append_cancel_left}
use go_blockchain_demo.Prelude.{
  ℕ, String, ◌≡◌, ◌≢◌, sym, ◌∙◌, none, some, ok, arith, effects, str_eq_ne, eq_refl,
  Decimal.decimal, Decimal.decimal-injective,
}
use go_blockchain_demo.Records.{Block}
use go_blockchain_demo.Library.{Library}
use go_blockchain_demo.Library.Laws.{Laws}
use go_blockchain_demo.State.{Blockchain, Slot}
use go_blockchain_demo.State.View.{IsHealthy, view}
use go_blockchain_demo.Chain.Defs.{block_key, get_block_from_trie, save_block_to_trie}
use go_blockchain_demo.Chain.Heads.{Heads, advance, HasHeads}
use go_blockchain_demo.Chain.Saved.{block_in, save_block_to_trie-BlockSaved}

-- Blocks with different indices have different keys in the trie.
pub block_key-injective : (m n : ℕ) → block_key m ≡ block_key n → m ≡ n
unfolding block_key
block_key-injective m n e =
    decimal-injective m n (append_cancel_left "block_" (decimal m) (decimal n) e)

module _ (lib : Library) (laws : Laws lib) where
  pub get_block_from_trie-found :
      (key : String) (block : Block) (s : Blockchain lib)
      → IsHealthy lib laws s
      → block_in lib laws s key ≡ some block
      → get_block_from_trie key s ≡ (ok block, s)
  unfolding get_block_from_trie effects
  get_block_from_trie-found key block s healthy found =
      let (t, here, open_t) = healthy.opened Slot.blocks in
      ground (arith, here, laws.trie_get_lem t key s.world healthy.fine open_t, found)

  -- From a healthy node with heads that the block advances, and no value in the trie under the key
  -- of the block: after `SaveBlockToTrie` the block is read back under its key, and under the key of
  -- any other index the trie holds what it held.
  pub get_block_from_trie-save_block_to_trie :
      (block : Block) (heads heads' : Heads) (s : Blockchain lib)
      → IsHealthy lib laws s
      → HasHeads lib laws heads s.world
      → advance block heads ≡ some heads'
      → view lib laws Slot.blocks s (block_key block.index) ≡ none
      → (s' : Blockchain lib) × (save_block_to_trie block s ≡ (ok tt, s'))
        × (get_block_from_trie (block_key block.index) s' ≡ (ok block, s'))
        × ((index : ℕ)
            → index ≢ block.index
            → block_in lib laws s' (block_key index) ≡ block_in lib laws s (block_key index))
  get_block_from_trie-save_block_to_trie block heads heads' s healthy has moves is_new =
      let (s', saves, after) =
        save_block_to_trie-BlockSaved lib laws block heads heads' s healthy has moves is_new in
      (
        s',
        saves,
        get_block_from_trie-found (block_key block.index) block s' after.healthy
            (after.saved (block_key block.index) ∙ ground (arith, eq_refl (block_key block.index))),
        λ index ne.
            after.saved (block_key index)
            ∙ ground (
              arith,
              str_eq_ne (block_key block.index) (block_key index)
                  (λ e. ne (sym (block_key-injective block.index index e))),
            ),
      )
