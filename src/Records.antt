-- ===== src/Records.antt =====
-- The records of app/internal/blockchain: accounts (account.go), transactions (tx.go), blocks
-- (block.go) and the configuration (chain.go). A Go string and a []byte are both sequences of
-- bytes, kept as a `String`; the ID of a transaction, which may be nil, is a `Slice`, `none` for nil. The
-- transactions of a block and the nodes of a configuration are lists, where a nil slice is the empty
-- one: the code only ranges over them and encodes them. A uint64 is an ℕ below `uint64_mod`; the fields read by nothing but a printer have no such bound written.
use go_blockchain_demo.Prelude.{ℕ, String, Option, none, some, List}

abbrev pub Slice : Type 0
Slice = Option String

-- What ranging over, joining or encoding a slice sees: nil is empty.
abbrev pub slice_bytes : Slice → String
slice_bytes none = ""
slice_bytes (some b) = b

pub record Account : Type 0 where
  pub address : String
  pub balance : ℕ
  pub public_key : String
  pub nonce : ℕ

pub record Transaction : Type 0 where
  pub id : Slice
  pub from : String
  pub to : String
  pub amount : ℕ
  pub timestamp : ℕ
  pub signature : String

pub record BlockHeader : Type 0 where
  pub version : ℕ
  pub previous_block_header : String
  pub merkle_root : String
  pub root_account : String
  pub root_transaction : String
  pub time : ℕ
  pub signature : String

pub record Block : Type 0 where
  pub block_header : BlockHeader
  pub index : ℕ
  pub txns : List String

-- `Index int` of a node and of the configuration: the configuration files number the nodes from 1,
-- and no negative index is modelled.
pub record Node : Type 0 where
  pub public_key : String
  pub url : String
  pub index : ℕ
  pub api_url : String

pub record Config : Type 0 where
  pub nodes : List Node
  pub private_key_hex : String
  pub index : ℕ

-- The zero values `Block{}` and `Node{}`.
abbrev pub empty_header : BlockHeader
empty_header = record {
  version = 0;
  previous_block_header = "";
  merkle_root = "";
  root_account = "";
  root_transaction = "";
  time = 0;
  signature = "";
}
