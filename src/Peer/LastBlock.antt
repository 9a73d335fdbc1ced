-- ===== src/Peer/LastBlock.antt =====
-- What a peer's last block does to a node: `handleLastBlockResponse` of
-- app/internal/p2pnetwork/p2pnetwork.go.
use go_blockchain_demo.Prelude.{
  ◌≤◌, ◌≡◌, refl, ap, ◌∙◌, ok, arith, effects, ltb, if◌then◌else◌, inl, inr, Bool-cases, ne_by_test,
}
use go_blockchain_demo.Records.{Block}
use go_blockchain_demo.Library.{Library}
use go_blockchain_demo.Library.Laws.{Laws}
use go_blockchain_demo.State.{Blockchain}
use go_blockchain_demo.State.View.{decode}
use go_blockchain_demo.Chain.{save_last_block}
use go_blockchain_demo.Chain.Heads.{Heads, HasHeads, reads_last, save_block_at-Written}
use go_blockchain_demo.Peer.Messages.{handle_last_block_response}

-- The heads after a peer told its last block.
abbrev pub told : Block → Heads → Heads
told block heads = record heads {
  last = if ltb heads.last.index block.index then block else heads.last;
}

module _ (lib : Library) (laws : Laws lib) where
  -- At a node on a fine disk with two heads, a last block that a peer tells becomes the last block
  -- of the node if its index is higher, and else the heads are as they were; so the index of the
  -- last block does not go down.
  pub handle_last_block_response-told :
      (block : Block) (heads : Heads) (s : Blockchain lib)
      → laws.IsFine s.world
      → HasHeads lib laws heads s.world
      → (w' : lib.World) × (handle_last_block_response block s ≡ (ok tt, record s { world = w' }))
        × laws.IsFine w'
        × HasHeads lib laws (told block heads) w'
        × (heads.last.index ≤ (told block heads).last.index)
  unfolding handle_last_block_response save_last_block effects
  handle_last_block_response-told block heads s fine has =
      elim (Bool-cases (ltb heads.last.index block.index)) [
        | inl higher ↦
            let (w, saves, written) =
              save_block_at-Written lib laws "LAST_BLOCK" "lỗi khi lưu LAST_BLOCK" block s fine in
            (
              w,
              ground (arith, reads_last lib laws block heads s fine has, higher, saves),
              written.fine,
              record {
                has_current =
                    ap (decode lib.block_codec)
                      (written.others "CURRENT_BLOCK" (ne_by_test _ _ refl))
                    ∙ has.has_current;
                has_last = written.writes ∙ ground (arith, higher);
              },
              ground arith,
            )
        | inr lower ↦ (
          s.world,
          ground (arith, reads_last lib laws block heads s fine has, lower),
          fine,
          record { has_current = has.has_current; has_last = has.has_last ∙ ground (arith, lower) },
          ground arith,
        )
      ]
