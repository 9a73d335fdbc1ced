-- ===== src/Lib.antt =====
-- A model of the blockchain node under app/ and what is proved of it.
--
-- The program. A node keeps accounts, transactions and blocks in three Merkle Patricia tries over one
-- LevelDB database, the pool of transactions in memory, and the current and the last block under two
-- keys of the database. The HTTP server creates transactions and reads what is stored; the P2P
-- network exchanges transactions and blocks; a node whose turn it is applies its pool to the accounts
-- and proposes a block, and the other nodes apply the transactions that the block names.
--
-- The files, and the code that each models:
--   Records        the records of app/internal/blockchain/account.go, tx.go, block.go and chain.go
--   Library        what the code calls outside the repository, as a parameter (see below)
--   State          `type Blockchain`, the trie storage that three methods share, and
--                  `RestoreTrieFromRootHash`; State.View is the state without its representation
--   Accounts       app/internal/blockchain/account.go
--   Signatures     `Hash`, `SignTransaction`, `VerifyTransactionSignature`, `SignMerkleRoot` and
--                  `VerifySignature` of app/internal/blockchain/tx.go and chain.go
--   Ledger         the abstract ledger that the processing of transactions is measured against
--   Mempool        `type Mempool` of app/internal/blockchain/tx.go
--   Transactions   the rest of app/internal/blockchain/tx.go: creation, lookup, the two loops
--   Chain          app/internal/blockchain/chain.go: the blocks, the proposal, a peer's block, `Init`
--   Peer           app/internal/p2pnetwork/p2pnetwork.go: the peer table (Table) and a function for
--                  each round of the four goroutines of `runProtocol` (Messages), and the requests
--                  for a transaction (Request), and the server (Server)
--   Api            the five handlers of app/internal/api/server.go
--   BlsDemo        the five programs under bls-demo/, over the parameter `Bls`
--   Main           `main` of app/cmd/node/node.go
--   Prelude        errors, actions on a state, Go maps, decimal numbers, and rules for invariants
--   Examples       a small node in memory at which the theorems are applied
--
-- How code is modelled. A Go function that returns an error returns an `Outcome`: a value, an error,
-- or a panic. A method of the blockchain is an `Action`: it takes the state of the node and returns
-- an outcome and the state, which is kept when it fails, as the writes of the code are. A pointer or
-- interface that may be nil is an `Option`, and using a nil one panics. An error keeps its text and
-- the error that it wraps, and at most one of the arguments of its format. A uint64 is a natural
-- number, with `% 2 ^ 64` written where the code adds or subtracts. A Go map is an association list,
-- and code that ranges over a map takes the order of the range as an argument.
--
-- Parameters. `Library` stands for goleveldb, the tries and the trie database of go-ethereum, the
-- cryptography, encoding/json, the clock and the files; `Library.Laws` is what the theorems assume
-- of it: a working disk, tries that can be opened at a committed root and hold what was written,
-- codecs that read what they write, and hexutil. `Library.Memory` is a concrete instance with its
-- laws. The programs under bls-demo/ have a parameter of their own, `Bls`, with `IsComplete`,
-- `IsSound` and `IsScheme` for what is assumed of it and the instance `BlsDemo.Memory`. The network
-- behind `P2PNetworkInterface` is a parameter too; `IsHonest` names what the invariant of the
-- processing asks of it, and `IsKeyPair` what signing asks of the cryptography.
--
-- The invariant. `Transactions.Invariant.Inv` is what the processing of transactions keeps, measured
-- from an earlier state of the node; `Chain.Invariant.NodeAt` adds the heads, the block trie and the
-- disk. Each operation that changes a node is shown to keep it, and then the loop over messages.
--
-- The answers of peers. `RequestTransaction` runs one goroutine for each peer and takes the first
-- value in either of two channels: `Environment` gives the exchanges with the peers in the order in
-- which their goroutines end. `network_interface` makes of it the interface of the blockchain.
--
-- Loops and fuel. All loops run over lists, and the three retries of `RestoreTrieFromRootHash` are
-- counted down, so every definition is total. `decimal` runs on as many rounds as the number plus
-- one, and each divides the number by ten.
--
-- Not modelled: the mutexes (a method is one step), the goroutines and timers around the rounds and
-- the ticks, the HTTP server around the handlers, a panic in the goroutines that
-- `RequestTransaction` starts for its calls of the p2p package, which would end the process, the
-- difference between a nil and an empty list of transactions or nodes, the printing of the node,
-- `GetInstance` (a singleton), and negative indices of nodes and counts of signers.
pub mod Prelude
pub mod Records
pub mod Library
pub mod State
pub mod Accounts
pub mod Signatures
pub mod Ledger
pub mod Mempool
pub mod Transactions
pub mod Chain
pub mod Peer
pub mod Api
pub mod BlsDemo
pub mod Main
pub mod Examples
