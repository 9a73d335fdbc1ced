-- ===== src/Chain/Heads.antt =====
-- CURRENT_BLOCK and LAST_BLOCK of app/internal/blockchain/chain.go as a specification: the two heads
-- of a chain, and how `SaveBlockToTrie` moves them.
use go_blockchain_demo.Prelude.{
  ◌+◌, ◌%◌, ◌≤◌, String, ◌≡◌, ◌≢◌, refl, sym, ap, subst, ◌∙◌, ◌<◌, Option, none, some, Bool, true,
  false, ok, err, errorf, arith, effects, str_eq_ne, ne_by_test, eq_refl, if◌then◌else◌, ltb, ◌==◌,
  uint64_mod, inl, inr, Bool-cases, Decimal.decimal,
}
use go_blockchain_demo.Records.{Block}
use go_blockchain_demo.Library.{Library}
use go_blockchain_demo.Library.Laws.{Laws}
use go_blockchain_demo.State.{Blockchain}
use go_blockchain_demo.State.View.{decode}
use go_blockchain_demo.Chain.Defs.{
  get_block_at, get_current_block, get_last_block, save_block_at, save_current_block,
  save_last_block, advance_chain,
}

pub record Heads : Type 0 where
  pub current : Block
  pub last : Block

-- The heads after a block is saved: the first block is both, a later one has to be the next, and is
-- the last one if its index is higher than that of the last one.
abbrev pub advance : Block → Heads → Option Heads
advance block heads =
    if ltb 0 block.index
    then (if block.index == (heads.current.index + 1) % uint64_mod
        then some (record {
          current = block;
          last = if ltb heads.last.index block.index then block else heads.last;
        })
        else none)
    else some (record { current = block; last = block })

module _ (lib : Library) (laws : Laws lib) where
  abbrev pub block_at : lib.World → String → Option Block
  block_at w key = decode lib.block_codec (laws.stored w key)

  pub record HasHeads (heads : Heads) (w : lib.World) : Type 0 where
    pub has_current : block_at w "CURRENT_BLOCK" ≡ some heads.current
    pub has_last : block_at w "LAST_BLOCK" ≡ some heads.last

  -- What a write of a block under a key of the database does to the disk.
  pub record Written (key : String) (block : Block) (w w' : lib.World) : Type 0 where
    pub fine : laws.IsFine w'
    pub writes : block_at w' key ≡ some block
    pub others : (j : String) → j ≢ key → laws.stored w' j ≡ laws.stored w j
    pub kept :
        (h : lib.Hash) (c : String → Option lib.Blob) → laws.Persisted w h c → laws.Persisted w' h c

  pub save_block_at-Written :
      (key text : String) (block : Block) (s : Blockchain lib)
      → laws.IsFine s.world
      → (w' : lib.World) × (save_block_at key text block s ≡ (ok tt, record s { world = w' }))
        × Written key block s.world w'
  unfolding save_block_at effects
  save_block_at-Written key text block s fine =
      let (v, encodes, decodes) = laws.block_codec_lem block in
      let (w', puts, fine', names, kept) = laws.db_put_lem key v s.world fine in
      (
        w',
        ground (arith, encodes, puts),
        record {
          fine = fine';
          writes = ground (arith, names key, eq_refl key, decodes);
          others = λ j ne. ground (arith, names j, str_eq_ne key j (λ e. ne (sym e)));
          kept = kept;
        },
      )

  pub get_block_at_lem :
      (key get_text decode_text : String) (block : Block) (s : Blockchain lib)
      → laws.IsFine s.world
      → block_at s.world key ≡ some block
      → get_block_at key get_text decode_text s ≡ (ok block, s)
  unfolding get_block_at effects
  get_block_at_lem key get_text decode_text block s fine there =
      ground (arith, laws.db_get_lem key s.world fine, there)

  -- What the saves of a block under CURRENT_BLOCK and LAST_BLOCK do to a node.
  pub record Advanced (heads : Heads) (s : Blockchain lib) (w' : lib.World) : Type 0 where
    pub fine : laws.IsFine w'
    pub heads_lem : HasHeads heads w'
    pub others :
        (k : String)
        → k ≢ "CURRENT_BLOCK"
        → k ≢ "LAST_BLOCK"
        → laws.stored w' k ≡ laws.stored s.world k
    pub kept :
        (h : lib.Hash) (c : String → Option lib.Blob)
        → laws.Persisted s.world h c
        → laws.Persisted w' h c

  current-Advanced :
      (block : Block) (heads : Heads) (s : Blockchain lib) (w1 : lib.World)
      → HasHeads heads s.world
      → Written "CURRENT_BLOCK" block s.world w1
      → Advanced (record { current = block; last = heads.last }) s w1
  current-Advanced block heads s w1 has one = record {
    fine = one.fine;
    heads_lem = record {
      has_current = one.writes;
      has_last =
          ap (decode lib.block_codec) (one.others "LAST_BLOCK" (ne_by_test _ _ refl))
          ∙ has.has_last;
    };
    others = λ k n1 n2. one.others k n1;
    kept = one.kept;
  }

  both-Advanced :
      (block : Block) (s : Blockchain lib) (w1 w2 : lib.World)
      → Written "CURRENT_BLOCK" block s.world w1
      → Written "LAST_BLOCK" block w1 w2
      → Advanced (record { current = block; last = block }) s w2
  both-Advanced block s w1 w2 one two = record {
    fine = two.fine;
    heads_lem = record {
      has_current =
          ap (decode lib.block_codec) (two.others "CURRENT_BLOCK" (ne_by_test _ _ refl))
          ∙ one.writes;
      has_last = two.writes;
    };
    others = λ k n1 n2. two.others k n2 ∙ one.others k n1;
    kept = λ h c p. two.kept h c (one.kept h c p);
  }

  -- Either the heads advance, or the block is refused and nothing changes.
  abbrev pub Advances : Block → Blockchain lib → Option Heads → Type 0
  Advances block s (some heads) =
      (w' : lib.World) × (advance_chain block s ≡ (ok tt, record s { world = w' }))
      × Advanced heads s w'
  Advances block s none =
      advance_chain block s ≡ (err (errorf "block index không hợp lệ: %d" (decimal block.index)), s)

  module _ (block : Block) (heads : Heads) (s : Blockchain lib) (fine : laws.IsFine s.world)
      (has : HasHeads heads s.world) where
    pub reads_current : get_current_block s ≡ (ok heads.current, s)
    unfolding get_current_block
    reads_current = get_block_at_lem _ _ _ heads.current s fine has.has_current

    pub reads_last : get_last_block s ≡ (ok heads.last, s)
    unfolding get_last_block
    reads_last = get_block_at_lem _ _ _ heads.last s fine has.has_last

    first-Advances :
        ltb 0 block.index ≡ false
        → Advances block s (some (record { current = block; last = block }))
    unfolding advance_chain save_current_block save_last_block effects
    first-Advances is_first =
        let (w1, saves1, one) =
          save_block_at-Written "CURRENT_BLOCK" "lỗi khi lưu CURRENT_BLOCK" block s fine in
        let (w2, saves2, two) =
          save_block_at-Written "LAST_BLOCK" "lỗi khi lưu LAST_BLOCK" block
            (record s { world = w1 }) one.fine in
        (w2, ground (arith, is_first, saves1, saves2), both-Advanced block s w1 w2 one two)

    abbrev is_next : Bool
    is_next = block.index == (heads.current.index + 1) % uint64_mod

    next-Advances :
        ltb 0 block.index ≡ true
        → is_next ≡ true
        → ltb heads.last.index block.index ≡ true
        → Advances block s (some (record { current = block; last = block }))
    unfolding advance_chain save_current_block save_last_block effects
    next-Advances later next higher =
        let (w1, saves1, one) =
          save_block_at-Written "CURRENT_BLOCK" "lỗi khi lưu CURRENT_BLOCK" block s fine in
        let (w2, saves2, two) =
          save_block_at-Written "LAST_BLOCK" "lỗi khi lưu LAST_BLOCK" block
            (record s { world = w1 }) one.fine in
        (
          w2,
          ground (arith, later, next, higher, reads_current, reads_last, saves1, saves2),
          both-Advanced block s w1 w2 one two,
        )

    behind-Advances :
        ltb 0 block.index ≡ true
        → is_next ≡ true
        → ltb heads.last.index block.index ≡ false
        → Advances block s (some (record { current = block; last = heads.last }))
    unfolding advance_chain save_current_block effects
    behind-Advances later next lower =
        let (w1, saves1, one) =
          save_block_at-Written "CURRENT_BLOCK" "lỗi khi lưu CURRENT_BLOCK" block s fine in
        (
          w1,
          ground (arith, later, next, lower, reads_current, reads_last, saves1),
          current-Advanced block heads s w1 has one,
        )

    refused-Advances : ltb 0 block.index ≡ true → is_next ≡ false → Advances block s none
    unfolding advance_chain effects
    refused-Advances later other = ground (arith, later, other, reads_current, reads_last)

    abbrev both : Option Heads
    both = some (record { current = block; last = block })

    abbrev behind : Option Heads
    behind = some (record { current = block; last = heads.last })

    -- At a node on a fine disk with two heads, the tests of `SaveBlockToTrie` and its writes of
    -- CURRENT_BLOCK and LAST_BLOCK do what `advance` says: where the block advances the heads, they end
    -- well, with the new heads stored and no other key of the database changed; where it does not,
    -- they give an error and change nothing.
    pub advance_chain-Advances : Advances block s (advance block heads)
    advance_chain-Advances = elim (Bool-cases (ltb 0 block.index)) [
      | inr is_first ↦
          subst (Advances block s) {x = both} (ground (arith, is_first)) (first-Advances is_first)
      | inl later ↦ elim (Bool-cases is_next) [
        | inr other ↦
            subst (Advances block s) {x = none} (ground (arith, later, other))
              (refused-Advances later other)
        | inl next ↦ elim (Bool-cases (ltb heads.last.index block.index)) [
          | inl higher ↦
              subst (Advances block s) {x = both} (ground (arith, later, next, higher))
                (next-Advances later next higher)
          | inr lower ↦
              subst (Advances block s) {x = behind} (ground (arith, later, next, lower))
                (behind-Advances later next lower)
        ]
      ]
    ]

-- The current block is never ahead of the last one.
abbrev pub IsOrdered : Heads → Type 0
IsOrdered heads = heads.current.index ≤ heads.last.index

-- Every advance keeps the order of the heads, and the last block is never replaced by a lower one,
-- but by the first block.
pub advance-IsOrdered :
    (block : Block) (heads heads' : Heads)
    → IsOrdered heads
    → advance block heads ≡ some heads'
    → IsOrdered heads' × ((0 < block.index) → heads.last.index ≤ heads'.last.index)
advance-IsOrdered block heads heads' ordered moved = (ground arith, λ later. ground arith)
