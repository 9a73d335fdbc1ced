-- ===== src/Chain/Invariant.antt =====
-- The invariant of a whole node between two operations of app/internal/blockchain: that of the
-- processing of transactions, the heads in order, no block above the current one, and all on the
-- disk.
use mathlib.Core.Path.{fun_ext}
use go_blockchain_demo.Prelude.{
  ℕ, ◌+◌, ◌%◌, ◌≤◌, ◌<◌, String, ◌≡◌, refl, sym, ap, subst, ◌∙◌, none, List, arith, uint64_mod,
  if◌then◌else◌, ltb, ◌==◌, inl, inr, Bool-cases, ne_by_test, Ensures, ensure, Ensures-eq,
}
use go_blockchain_demo.Records.{Block}
use go_blockchain_demo.Ledger.{IsLedger, total}
use go_blockchain_demo.Library.{Library}
use go_blockchain_demo.Library.Laws.{Laws}
use go_blockchain_demo.State.{Blockchain, Slot, blocks, accounts}
use go_blockchain_demo.State.View.{
  IsDurable, view, decode, contents_of, Slot-discrete, root_name, root_name-ne-heads,
}
use go_blockchain_demo.State.Chain.{SameChain-refl, SameDisk, moved, IsDurable-kept}
use go_blockchain_demo.Accounts.Laws.{account_at}
use go_blockchain_demo.Transactions.Invariant.{Inv}
use go_blockchain_demo.Chain.Defs.{block_key, save_block_to_trie}
use go_blockchain_demo.Chain.Heads.{Heads, HasHeads, IsOrdered, Written}
use go_blockchain_demo.Chain.Saved.{
  BlockSaved, save_block_to_trie-BlockSaved, save_block_to_trie-refused,
}
use go_blockchain_demo.Chain.Lookup.{block_key-injective}

-- The heads after a later block is saved.
abbrev pub next_heads : Block → Heads → Heads
next_heads block heads = record {
  current = block;
  last = if ltb heads.last.index block.index then block else heads.last;
}

module _ (lib : Library) (laws : Laws lib) (addresses : List String) (sum : ℕ) where
  pub record NodeAt (heads : Heads) (s : Blockchain lib) : Type 0 where
    pub inv : Inv lib laws addresses sum s s
    pub has_heads : HasHeads lib laws heads s.world
    pub ordered : IsOrdered heads
    pub in_range : heads.last.index < uint64_mod
    pub above :
        (index : ℕ) → heads.current.index < index → view lib laws blocks s (block_key index) ≡ none
    pub durable : (slot : Slot) → IsDurable lib laws slot s

  -- A node that keeps the invariant, and whose last block is not below that of some heads.
  abbrev pub Reached : Heads → Blockchain lib → Type 0
  Reached heads s = (heads' : Heads) × NodeAt heads' s × (heads.last.index ≤ heads'.last.index)

  pub stays : (heads : Heads) (s : Blockchain lib) → NodeAt heads s → Reached heads s
  stays heads s node = (heads, node, omega arith)

  rebase :
      (base s : Blockchain lib) → Inv lib laws addresses sum base s → Inv lib laws addresses sum s s
  rebase base s inv = record {
    healthy = inv.healthy;
    well_formed = inv.well_formed;
    conserved = inv.conserved;
    pool = inv.pool;
    network = inv.network;
    chain = SameChain-refl lib laws s;
  }

  -- The processing of transactions leaves the blocks and the heads alone.
  pub processed :
      (heads : Heads) (s s' : Blockchain lib)
      → NodeAt heads s
      → Inv lib laws addresses sum s s'
      → NodeAt heads s'
  processed heads s s' node inv = record {
    inv = rebase s s' inv;
    has_heads = record {
      has_current =
          ap (decode lib.block_codec)
            (inv.chain.same_names "CURRENT_BLOCK" (ne_by_test _ _ refl) (ne_by_test _ _ refl))
          ∙ node.has_heads.has_current;
      has_last =
          ap (decode lib.block_codec)
            (inv.chain.same_names "LAST_BLOCK" (ne_by_test _ _ refl) (ne_by_test _ _ refl))
          ∙ node.has_heads.has_last;
    };
    ordered = node.ordered;
    in_range = node.in_range;
    above = λ index higher.
        ap (λ t. contents_of lib laws t (block_key index)) inv.chain.same_blocks
        ∙ node.above index higher;
    durable = λ slot. inv.chain.durable slot (node.durable slot);
  }

  -- A change of the world that is not one of the disk, as reading the clock or sending a message.
  pub outside :
      (heads : Heads) (s : Blockchain lib) (w : lib.World)
      → NodeAt heads s
      → laws.IsFine w
      → SameDisk lib laws s.world w
      → NodeAt heads (record s { world = w })
  outside heads s w node fine disk = processed heads s _ node (record {
    healthy = record { fine = fine; opened = node.inv.healthy.opened };
    well_formed = node.inv.well_formed;
    conserved = node.inv.conserved;
    pool = node.inv.pool;
    network = node.inv.network;
    chain = moved lib laws s s _ disk (λ slot. refl) refl refl (SameChain-refl lib laws s);
  })

  -- A last block that is higher is written.
  pub last-NodeAt :
      (block : Block) (heads : Heads) (s : Blockchain lib) (w : lib.World)
      → NodeAt heads s
      → heads.last.index < block.index
      → block.index < uint64_mod
      → Written lib laws "LAST_BLOCK" block s.world w
      → NodeAt (record heads { last = block }) (record s { world = w })
  last-NodeAt block heads s w node higher fits written =
      let durable : (slot : Slot) → IsDurable lib laws slot (record s { world = w }) = λ slot.
        IsDurable-kept lib laws slot s (record s { world = w })
          (written.others (root_name slot) (root_name-ne-heads slot).1) written.kept refl
          (node.durable slot) in
      record {
        inv = record {
          healthy = record { fine = written.fine; opened = node.inv.healthy.opened };
          well_formed = node.inv.well_formed;
          conserved = node.inv.conserved;
          pool = node.inv.pool;
          network = node.inv.network;
          chain = SameChain-refl lib laws _;
        };
        has_heads = record {
          has_current =
              ap (decode lib.block_codec) (written.others "CURRENT_BLOCK" (ne_by_test _ _ refl))
              ∙ node.has_heads.has_current;
          has_last = written.writes;
        };
        ordered = let old = node.ordered in omega arith;
        in_range = fits;
        above = node.above;
        durable = durable;
      }

  -- A block that is saved leaves the accounts, the pool and the network alone.
  saved-Inv :
      (block : Block) (heads : Heads) (s s' : Blockchain lib)
      → Inv lib laws addresses sum s s
      → BlockSaved lib laws block heads s s'
      → Inv lib laws addresses sum s' s'
  saved-Inv block heads s s' inv saved =
      let same : account_at lib laws s' ≡ account_at lib laws s = fun_ext λ k.
        ap (λ t. decode lib.account_codec (contents_of lib laws t k))
          (saved.other_tries accounts (λ e. cc)) in
      record {
        healthy = saved.healthy;
        well_formed = subst IsLedger (sym same) inv.well_formed;
        conserved = ap (λ l. total l addresses) same ∙ inv.conserved;
        pool = λ mp e. inv.pool mp (sym saved.same_mempool ∙ e);
        network = λ net e. inv.network net (sym saved.same_network ∙ e);
        chain = SameChain-refl lib laws s';
      }

  saved-NodeAt :
      (block : Block) (heads : Heads) (s s' : Blockchain lib)
      → NodeAt heads s
      → heads.current.index < block.index
      → block.index < uint64_mod
      → BlockSaved lib laws block (next_heads block heads) s s'
      → NodeAt (next_heads block heads) s'
  saved-NodeAt block heads s s' node higher fits saved = record {
    inv = saved-Inv block (next_heads block heads) s s' node.inv saved;
    has_heads = saved.has_heads;
    ordered = ground arith;
    in_range = let old = node.in_range in ground arith;
    above = λ index above_block.
        saved.other_keys (block_key index)
          (λ e. omega (arith, block_key-injective index block.index e))
        ∙ node.above index (omega arith);
    durable = λ slot. elim (Slot-discrete slot blocks) [
      | yes e ↦ rw e saved.durable
      | no ne ↦ saved.others_durable slot ne (node.durable slot)
    ];
  }

  -- A later block is saved on top of the current one, or is refused.
  pub save_block_to_trie-NodeAt :
      (block : Block) (heads : Heads) (s : Blockchain lib)
      → NodeAt heads s
      → 0 < block.index
      → Ensures (NodeAt heads) (λ _. NodeAt (next_heads block heads)) (save_block_to_trie block s)
  save_block_to_trie-NodeAt block heads s node later =
      elim (Bool-cases (block.index == (heads.current.index + 1) % uint64_mod)) [
        | inr other ↦
            Ensures-eq
              (save_block_to_trie-refused lib laws block heads s node.inv.healthy.fine
                node.has_heads (ground (arith, later, other)))
              (ensure node)
        | inl next ↦
            let ordered = node.ordered in
            let in_range = node.in_range in
            let higher : heads.current.index < block.index = ground (arith, next, later) in
            let fits : block.index < uint64_mod = ground (arith, next) in
            let (s', runs, saved) =
              save_block_to_trie-BlockSaved lib laws block heads (next_heads block heads) s
                node.inv.healthy node.has_heads (ground (arith, later, next))
                (node.above block.index higher) in
            Ensures-eq runs (ensure (saved-NodeAt block heads s s' node higher fits saved))
      ]
