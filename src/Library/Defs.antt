-- ===== src/Library/Defs.antt =====
-- The code outside the repository that app/internal/blockchain calls, as a parameter of the model:
-- LevelDB (goleveldb through go-ethereum), the Merkle Patricia trie and its node database
-- (go-ethereum/trie, /triedb), the cryptography (go-ethereum/crypto, hexutil, crypto/sha256),
-- encoding/json, the clock and the file system. `World` is all that these keep: the disk with the
-- open database, the files, the clock, and the network behind `P2PNetworkInterface`.
use go_blockchain_demo.Prelude.{ℕ, Bool, String, Option, Outcome, ⊤}
use go_blockchain_demo.Records.{Account, Transaction, Block, Config}

-- json.Marshal and json.Unmarshal at one type.
pub record Codec (Blob A : Type 0) : Type 0 where
  pub marshal : A → Outcome Blob
  pub unmarshal : Blob → Outcome A

pub record Library : Type 1 where
  pub World : Type 0
  -- the []byte values kept in the database and in the tries
  pub Blob : Type 0
  -- common.Hash, trie.Trie, trienode.NodeSet and triedb.Database
  pub Hash : Type 0
  pub Trie : Type 0
  pub Nodes : Type 0
  pub TrieDb : Type 0
  -- a float64
  pub Float : Type 0
  pub PrivateKey : Type 0
  pub PublicKey : Type 0
  -- leveldb: New(path), Get(key), Put(key, value)
  pub open_leveldb : String → World → Outcome ⊤ × World
  pub db_get : String → World → Outcome Blob × World
  pub db_put : String → Blob → World → Outcome ⊤ × World
  -- trie.New(TrieID(root), db), Get, Update (the callers drop its error) and Commit
  pub trie_new : Hash → World → Outcome Trie × World
  pub trie_get : Trie → String → World → Outcome (Option Blob) × World
  pub trie_update : Trie → String → Blob → World → Trie × World
  pub trie_commit : Trie → Hash × Nodes × Trie
  pub trie_hash : Trie → Hash
  -- triedb.NewDatabase, Update(root, …, NewWithNodeSet(nodes), …) and Commit(root, …)
  pub new_triedb : TrieDb
  pub triedb_update : TrieDb → Hash → Nodes → World → Outcome TrieDb × World
  pub triedb_commit : TrieDb → Hash → World → Outcome ⊤ × World
  -- root[:], common.BytesToHash and the zero common.Hash{}
  pub hash_bytes : Hash → Blob
  pub bytes_to_hash : Blob → Hash
  pub empty_hash : Hash
  -- encoding/json
  pub account_codec : Codec Blob Account
  pub transaction_codec : Codec Blob Transaction
  pub block_codec : Codec Blob Block
  pub config_codec : Codec Blob Config
  -- hexutil.Encode and Decode, crypto.Keccak256Hash(b).Bytes(), sha256.Sum256
  pub hex_encode : String → String
  pub hex_decode : String → Outcome String
  pub keccak256 : String → String
  pub sha256 : String → String
  -- crypto: HexToECDSA, Sign, Ecrecover, UnmarshalPubkey, FromECDSAPub, PubkeyToAddress().Hex()
  pub hex_to_ecdsa : String → Outcome PrivateKey
  pub sign : String → PrivateKey → Outcome String
  pub ecrecover : String → String → Outcome String
  pub unmarshal_pubkey : String → Outcome PublicKey
  pub from_ecdsa_pub : PublicKey → String
  pub pubkey_to_address : PublicKey → String
  -- float64: x <= 0 (false at NaN), and the conversion uint64(x)
  pub float_le_zero : Float → Bool
  pub float_to_uint64 : Float → ℕ
  -- os.Getwd, filepath.Join, os.ReadFile and uint64(time.Now().Unix())
  pub getwd : World → Outcome String × World
  pub filepath_join : String → String → String
  pub read_file : String → World → Outcome Blob × World
  pub now : World → ℕ × World

-- How `RequestTransaction` comes back to the waiting `select`: a transaction, an error, or not
-- within the ten seconds.
pub data Reply : Type 0 where
  response : Transaction → Reply
  failed : Reply
  timeout : Reply

-- `type P2PNetworkInterface interface`
pub record P2pNetworkInterface (World : Type 0) : Type 0 where
  pub broadcast_transaction : Transaction → World → Outcome ⊤ × World
  pub request_transaction : String → World → Reply × World
