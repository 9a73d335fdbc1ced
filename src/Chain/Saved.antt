-- ===== src/Chain/Saved.antt =====
-- `SaveBlockToTrie` of app/internal/blockchain/chain.go under the laws of the libraries.
use go_blockchain_demo.Prelude.{
  String, ◌≡◌, ◌≢◌, refl, sym, ap, subst, ◌∙◌, Option, none, some, ok, err, arith, effects, str_eq,
  ne_by_test, str_eq_ne, if◌then◌else◌, errorf, Decimal.decimal,
}
use go_blockchain_demo.Records.{Block}
use go_blockchain_demo.Library.{Library}
use go_blockchain_demo.Library.Laws.{Laws}
use go_blockchain_demo.State.{Blockchain, Slot, trie_at}
use go_blockchain_demo.State.Laws.{commit_to_database_lem, restore_lem}
use go_blockchain_demo.State.Chain.{IsDurable-kept}
use go_blockchain_demo.State.View.{
  root_name, root_name-ne-heads, IsHealthy, IsDurable, Saved, view, decode, put_trie-Saved,
}
use go_blockchain_demo.Chain.Defs.{block_key, store_block, save_block_to_trie}
use go_blockchain_demo.Chain.Heads.{Heads, advance, HasHeads, Advances, advance_chain-Advances}

module _ (lib : Library) (laws : Laws lib) where
  store_block-Saved :
      (s : Blockchain lib) (block : Block) (value : lib.Blob)
      → IsHealthy lib laws s
      → lib.block_codec.marshal block ≡ ok value
      → view lib laws Slot.blocks s (block_key block.index) ≢ some value
      → (s' : Blockchain lib) × (store_block block s ≡ (ok tt, s'))
        × Saved lib laws Slot.blocks (block_key block.index) value s s'
  unfolding store_block effects
  store_block-Saved s block value healthy encodes new =
      let (t, here, open_t) = healthy.opened Slot.blocks in
      let (t1, t2, root, w, writes, committed) =
        commit_to_database_lem lib laws Slot.blocks s t "lỗi khi cập nhật trie database"
          (block_key block.index) value healthy.fine here open_t (λ q. new (rw here q)) in
      let (u, opens, open_u, same) =
        restore_lem lib laws (record s { world = w; tr = some t2 }) root (laws.contents t1)
          committed.fine committed.persisted in
      let (w', puts, fine', names, kept) =
        laws.db_put_lem "ROOT_HASH" (lib.hash_bytes root) w committed.fine in
      (
        record s { world = w'; tr = some u },
        ground (arith, encodes, committed.runs, opens, puts),
        put_trie-Saved lib laws Slot.blocks (block_key block.index) value s t u root
            (laws.contents t1) w' healthy here writes fine' open_u same
            (λ k. rw (← committed.same k) (names k)) (kept root _ committed.persisted)
            (λ h d p. kept h d (committed.kept h d p)),
      )

  -- The block that the trie holds under a key.
  abbrev pub block_in : Blockchain lib → String → Option Block
  block_in s k = decode lib.block_codec (view lib laws Slot.blocks s k)

  -- A node after a block is saved: the heads are moved, the trie holds the block under its key and
  -- what it held elsewhere, also on the disk, and the other tries and the pool are the same.
  pub record BlockSaved (block : Block) (heads : Heads) (s s' : Blockchain lib) : Type 0 where
    pub healthy : IsHealthy lib laws s'
    pub has_heads : HasHeads lib laws heads s'.world
    pub saved :
        (k : String)
        → block_in s' k ≡ (if str_eq (block_key block.index) k then some block else block_in s k)
    pub other_keys :
        (k : String)
        → k ≢ block_key block.index
        → view lib laws Slot.blocks s' k ≡ view lib laws Slot.blocks s k
    pub durable : IsDurable lib laws Slot.blocks s'
    pub other_tries : (slot : Slot) → slot ≢ Slot.blocks → trie_at lib slot s' ≡ trie_at lib slot s
    pub others_durable :
        (slot : Slot) → slot ≢ Slot.blocks → IsDurable lib laws slot s → IsDurable lib laws slot s'
    pub same_config : s'.config ≡ s.config
    pub same_mempool : s'.mempool ≡ s.mempool
    pub same_network : s'.p2p_network ≡ s.p2p_network

  decode_write :
      (block : Block) (value : lib.Blob) (key k : String) (o o' : Option lib.Blob)
      → o' ≡ (if str_eq key k then some value else o)
      → lib.block_codec.unmarshal value ≡ ok block
      → decode lib.block_codec o' ≡ (if str_eq key k then some block else decode lib.block_codec o)
  decode_write block value key k o o' writes decodes = rw writes (ground (arith, decodes))

  -- From a healthy node with heads that the block advances, and no value in the trie under the key
  -- of the block, `SaveBlockToTrie` saves the block.
  pub save_block_to_trie-BlockSaved :
      (block : Block) (heads heads' : Heads) (s : Blockchain lib)
      → IsHealthy lib laws s
      → HasHeads lib laws heads s.world
      → advance block heads ≡ some heads'
      → view lib laws Slot.blocks s (block_key block.index) ≡ none
      → (s' : Blockchain lib) × (save_block_to_trie block s ≡ (ok tt, s'))
        × BlockSaved block heads' s s'
  unfolding save_block_to_trie effects
  save_block_to_trie-BlockSaved block heads heads' s healthy has moves is_new =
      let (w1, advances, advanced) =
        subst (Advances lib laws block s) moves
          (advance_chain-Advances lib laws block heads s healthy.fine has) in
      let (v, encodes, decodes) = laws.block_codec_lem block in
      let s1 : Blockchain lib = record s { world = w1 } in
      let (s2, stores, saved) =
        store_block-Saved s1 block v (record { fine = advanced.fine; opened = healthy.opened })
          encodes (λ q. let e : none ≡ some v = sym is_new ∙ q in cc) in
      (
        s2,
        ground (arith, advances, stores),
        record {
          healthy = saved.healthy;
          has_heads = record {
            has_current =
                ap (decode lib.block_codec)
                  (saved.other_names "CURRENT_BLOCK" (ne_by_test _ _ refl))
                ∙ advanced.heads_lem.has_current;
            has_last =
                ap (decode lib.block_codec) (saved.other_names "LAST_BLOCK" (ne_by_test _ _ refl))
                ∙ advanced.heads_lem.has_last;
          };
          saved = λ k.
              decode_write block v (block_key block.index) k (view lib laws Slot.blocks s k)
                (view lib laws Slot.blocks s2 k) (saved.writes k) decodes;
          other_keys = λ k ne.
              saved.writes k
              ∙ ground (arith, str_eq_ne (block_key block.index) k (λ e. ne (sym e)));
          durable = saved.durable;
          other_tries = saved.other_tries;
          others_durable = λ slot ne d. saved.others_durable slot ne (
              IsDurable-kept lib laws slot s s1
                (advanced.others (root_name slot) (root_name-ne-heads slot).0
                  (root_name-ne-heads slot).1)
                advanced.kept refl d);
          same_config = saved.same_config;
          same_mempool = saved.same_mempool;
          same_network = saved.same_network;
        },
      )

  -- From a node on a fine disk with heads that the block does not advance, `SaveBlockToTrie` gives
  -- an error and changes nothing.
  pub save_block_to_trie-refused :
      (block : Block) (heads : Heads) (s : Blockchain lib)
      → laws.IsFine s.world
      → HasHeads lib laws heads s.world
      → advance block heads ≡ none
      → save_block_to_trie block s
        ≡ (err (errorf "block index không hợp lệ: %d" (decimal block.index)), s)
  unfolding save_block_to_trie effects
  save_block_to_trie-refused block heads s fine has refuses =
      let refused : Advances lib laws block s none =
        subst (Advances lib laws block s) refuses
          (advance_chain-Advances lib laws block heads s fine has) in
      ground (arith, refused)
