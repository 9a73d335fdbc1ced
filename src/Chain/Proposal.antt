-- ===== src/Chain/Proposal.antt =====
-- Which node may propose a block, and with which node's key its signature is checked
-- (`CheckProposalCondition` and `HandleNewBlock` of app/internal/blockchain/chain.go).
use go_blockchain_demo.Prelude.{ℕ, ◌+◌, ◌%◌, ◌≤◌, ◌<◌, ◌≡◌, ◌≢◌, ◌↔◌, true, arith, uint64_mod}
use go_blockchain_demo.Chain.Blocks.{may_propose, verifier_index}

-- From block 2 on, of the nodes 1 to 3 exactly the one with index `current % 3 + 1` may propose
-- the block after `current`, as long as the index of that block is a uint64.
pub may_propose_lem :
    (current node_index : ℕ)
    → 2 ≤ current
    → current + 1 < uint64_mod
    → 1 ≤ node_index
    → node_index ≤ 3
    → (may_propose current node_index ≡ true) ↔ (node_index ≡ current % 3 + 1)
unfolding may_propose
may_propose_lem current node_index h1 h2 h3 h4 = (λ e. ground arith, λ e. ground arith)

-- After block `n` with `n + 2` a uint64, the nodes `n + 1` and `n + 2` may both propose: the
-- subtraction wraps around for the second, and 2 ^ 64 - 1 is a multiple of 3.
pub may_propose-two_nodes :
    (n : ℕ) → n + 2 < uint64_mod → (may_propose n (n + 1) ≡ true) × (may_propose n (n + 2) ≡ true)
unfolding may_propose
may_propose-two_nodes n h = (ground arith, ground arith)

-- From block 3 on, which follows a current block of index 2 or more, and as long as the index of the
-- block is a uint64, the signature of a block is never checked with the key of the node among 1 to 3
-- that may propose it.
pub verifier_index-proposer :
    (current node_index : ℕ)
    → 2 ≤ current
    → current + 1 < uint64_mod
    → 1 ≤ node_index
    → node_index ≤ 3
    → may_propose current node_index ≡ true
    → verifier_index (current + 1) ≢ node_index
unfolding verifier_index
verifier_index-proposer current node_index h1 h2 h3 h4 allowed e =
    omega (arith, (may_propose_lem current node_index h1 h2 h3 h4).0 allowed)
