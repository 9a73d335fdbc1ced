-- ===== src/Chain/Turn.antt =====
-- `CheckProposalCondition` of app/internal/blockchain/chain.go, at a node whose heads can be read.
use go_blockchain_demo.Prelude.{
  ◌+◌, ◌%◌, ◌≤◌, ◌<◌, ◌≡◌, ◌↔◌, Bool, true, false, ok, arith, effects, ltb, if◌then◌else◌,
  uint64_mod,
}
use go_blockchain_demo.Library.{Library}
use go_blockchain_demo.Library.Laws.{Laws}
use go_blockchain_demo.State.{Blockchain}
use go_blockchain_demo.Chain.Heads.{Heads, HasHeads, reads_current, reads_last}
use go_blockchain_demo.Chain.Blocks.{may_propose, check_proposal_condition}
use go_blockchain_demo.Chain.Proposal.{may_propose_lem}

module _ (lib : Library) (laws : Laws lib) where
  pub turn :
      (heads : Heads) (s : Blockchain lib)
      → laws.IsFine s.world
      → HasHeads lib laws heads s.world
      → check_proposal_condition s ≡ (
        ok (
            if ltb heads.current.index heads.last.index
            then false
            else may_propose heads.current.index s.config.index),
        s,
      )
  unfolding check_proposal_condition effects
  turn heads s fine has = ground (
    arith,
    reads_current lib laws heads.current heads s fine has,
    reads_last lib laws heads.current heads s fine has,
  )

  -- At a node with index 1 to 3 on a fine disk with two heads, from block 2 on and while the next
  -- index is a uint64: the check gives a result, changes nothing, and is true exactly if the current
  -- block is not behind the last one and the node has the index `current % 3 + 1`.
  pub check_proposal_condition_lem :
      (heads : Heads) (s : Blockchain lib)
      → laws.IsFine s.world
      → HasHeads lib laws heads s.world
      → 2 ≤ heads.current.index
      → heads.current.index + 1 < uint64_mod
      → 1 ≤ s.config.index
      → s.config.index ≤ 3
      → (allowed : Bool) × (check_proposal_condition s ≡ (ok allowed, s))
        × ((allowed ≡ true) ↔ (
            (heads.last.index ≤ heads.current.index)
            × (s.config.index ≡ heads.current.index % 3 + 1)))
  check_proposal_condition_lem heads s fine has h1 h2 h3 h4 =
      let (to, from) = may_propose_lem heads.current.index s.config.index h1 h2 h3 h4 in
      (
        (if ltb heads.current.index heads.last.index
            then false
            else may_propose heads.current.index s.config.index),
        turn heads s fine has,
        (λ e. (ground arith, to (ground arith)), λ e. ground (arith, e.0, from e.1)),
      )
