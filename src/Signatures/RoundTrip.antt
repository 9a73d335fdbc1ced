-- ===== src/Signatures/RoundTrip.antt =====
-- The signatures of app/internal/blockchain, checked by the code that verifies them.
use go_blockchain_demo.Prelude.{String, ◌≡◌, ok, true, arith, eq_refl}
use go_blockchain_demo.Records.{Transaction}
use go_blockchain_demo.Library.{Library}
use go_blockchain_demo.Library.Laws.{Laws}
use go_blockchain_demo.Signatures.Defs.{
  message, sign_transaction, verify_transaction_signature, sign_merkle_root, verify_signature,
}

-- A text that decodes to a private key, with the bytes of its public key: what the private key
-- signs, the recovery of the key from the signature gives back.
pub record IsKeyPair (lib : Library) (private_key_hex public_key_bytes : String) : Type 0 where
  pub private_key : lib.PrivateKey
  pub decodes : lib.hex_to_ecdsa private_key_hex ≡ ok private_key
  pub signs :
      (digest : String)
      → (signature : String) × (lib.sign digest private_key ≡ ok signature)
        × (lib.ecrecover digest signature ≡ ok public_key_bytes)

module _ (lib : Library) (laws : Laws lib) (private_key_hex public_key_bytes : String)
    (pair : IsKeyPair lib private_key_hex public_key_bytes) where
  -- Under a key pair, a transaction is signed, and with that signature it is verified by the text of
  -- the public key.
  pub verify_transaction_signature-sign_transaction :
      (tx : Transaction)
      → (signature : String) × (sign_transaction lib tx private_key_hex ≡ ok signature)
        × (verify_transaction_signature lib
              (record tx { signature = signature })
              (lib.hex_encode public_key_bytes)
            ≡ ok true)
  unfolding sign_transaction verify_transaction_signature message
  verify_transaction_signature-sign_transaction tx =
      let (signature, signs, recovers) = pair.signs (lib.keccak256 (message tx)) in
      (
        lib.hex_encode signature,
        ground (arith, pair.decodes, signs),
        ground (
          arith,
          laws.hex_decode-encode signature,
          laws.hex_decode-encode public_key_bytes,
          recovers,
          eq_refl public_key_bytes,
        ),
      )

  -- Under a key pair, and if the bytes of the public key are those of a point, a Merkle root is
  -- signed, and its signature is verified by the text of the public key.
  pub verify_signature-sign_merkle_root :
      (public_key : lib.PublicKey) (text : String)
      → lib.unmarshal_pubkey public_key_bytes ≡ ok public_key
      → lib.from_ecdsa_pub public_key ≡ public_key_bytes
      → (signature : String) × (sign_merkle_root lib private_key_hex text ≡ ok signature)
        × (verify_signature lib (lib.hex_encode public_key_bytes) text signature ≡ ok true)
  unfolding sign_merkle_root verify_signature
  verify_signature-sign_merkle_root public_key text is_point same =
      let (signature, signs, recovers) = pair.signs (lib.keccak256 text) in
      (
        lib.hex_encode signature,
        ground (arith, pair.decodes, signs),
        ground (
          arith,
          laws.hex_decode-encode signature,
          laws.hex_decode-encode public_key_bytes,
          is_point,
          recovers,
          same,
          eq_refl public_key_bytes,
        ),
      )
