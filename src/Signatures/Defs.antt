-- ===== src/Signatures/Defs.antt =====
-- The identity and the signatures of app/internal/blockchain: of a transaction (tx.go) and of a
-- Merkle root (chain.go), over the cryptography of the libraries.
use Prim.Native.String.{◌++◌}
use go_blockchain_demo.Prelude.{
  String, Outcome, ok, err, panic, wrap, Bool, str_eq, Decimal.decimal,
}
use go_blockchain_demo.Records.{Account, Transaction}
use go_blockchain_demo.Library.{Library}

-- `r, err := f(); if err != nil { return …, fmt.Errorf(text, err) }`, in a function without a state.
infixl 5 ◌>>=◌
abbrev ◌>>=◌ : {A B : Type 0} → Outcome A → (A → Outcome B) → Outcome B
ok a >>= f = f a
err e >>= f = err e
panic >>= f = panic

abbrev explain : {A : Type 0} → String → Outcome A → Outcome A
explain text (ok a) = ok a
explain text (err e) = err (wrap text e)
explain text panic = panic

-- The bytes that `tx.Hash()` joins, with nothing between them.
unfoldable pub hash_data : Transaction → String
hash_data tx = tx.from ++ (tx.to ++ (decimal tx.amount ++ decimal tx.timestamp))

-- `tx.Hash()`
unfoldable pub hash : Library → Transaction → String
hash lib tx = lib.sha256 (hash_data tx)

-- `fmt.Sprintf("%s_%s_%d_%d", tx.From, tx.To, tx.Amount, tx.Timestamp)`
unfoldable pub message : Transaction → String
message tx =
    tx.from ++ ("_" ++ (tx.to ++ ("_" ++ (decimal tx.amount ++ ("_" ++ decimal tx.timestamp)))))

-- `SignTransaction(tx, privateKeyHex)`
unfoldable pub sign_transaction : Library → Transaction → String → Outcome String
sign_transaction lib tx private_key_hex = do
  private_key ← explain "khóa riêng không hợp lệ" (lib.hex_to_ecdsa private_key_hex)
  signature ← explain "lỗi khi ký transaction" (lib.sign (lib.keccak256 (message tx)) private_key)
  ok (lib.hex_encode signature)

-- `VerifyTransactionSignature(tx, publicKeyHex)`
unfoldable pub verify_transaction_signature : Library → Transaction → String → Outcome Bool
verify_transaction_signature lib tx public_key_hex = do
  signature ← explain "chữ ký không hợp lệ" (lib.hex_decode tx.signature)
  public_key_bytes ← explain "khóa công khai không hợp lệ" (lib.hex_decode public_key_hex)
  sig_public_key ←
      explain "lỗi khi phục hồi khóa công khai"
        (lib.ecrecover (lib.keccak256 (message tx)) signature)
  ok (str_eq public_key_bytes sig_public_key)

-- `a.VerifyTransaction(tx)`
unfoldable pub verify_transaction : Library → Account → Transaction → Outcome Bool
verify_transaction lib a tx = verify_transaction_signature lib tx a.public_key

-- `SignMerkleRoot(privateKeyHex, message)`
unfoldable pub sign_merkle_root : Library → String → String → Outcome String
sign_merkle_root lib private_key_hex text = do
  private_key ← explain "khóa riêng không hợp lệ" (lib.hex_to_ecdsa private_key_hex)
  signature ← explain "lỗi khi ký thông điệp" (lib.sign (lib.keccak256 text) private_key)
  ok (lib.hex_encode signature)

-- `VerifySignature(publicKeyHex, message, signatureHex)`
unfoldable pub verify_signature : Library → String → String → String → Outcome Bool
verify_signature lib public_key_hex text signature_hex = do
  signature ← explain "chữ ký hex không hợp lệ" (lib.hex_decode signature_hex)
  public_key_bytes ← explain "khóa công khai hex không hợp lệ" (lib.hex_decode public_key_hex)
  public_key ← explain "khóa công khai không hợp lệ" (lib.unmarshal_pubkey public_key_bytes)
  sig_public_key ←
      explain "lỗi khi phục hồi khóa công khai" (lib.ecrecover (lib.keccak256 text) signature)
  ok (str_eq (lib.from_ecdsa_pub public_key) sig_public_key)
