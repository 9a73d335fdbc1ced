-- ===== src/BlsDemo/Programs.antt =====
-- The `main` of bls-demo/single-signature/single-signature.go, multi-signature/multi-signature.go and
-- recover/recover.go: the lines that each prints if it does not panic.
use go_blockchain_demo.Prelude.{
  String, List, [], ◌∷◌, Option, none, some, Action, Error, pure, panics, lift, ◌>>=◌,
}
use go_blockchain_demo.BlsDemo.Library.{Bls, Line, plain, with_error, with_text, random, or_panic}

abbrev pub multi_message : String
multi_message = "Đây là thông điệp quan trọng cần được ký bởi nhiều người"

-- What is printed for the error of `Verify`.
abbrev pub verdict : String → String → Option Error → Line
verdict failure success (some e) = with_error failure e
verdict failure success none = plain success

module _ (bls : Bls) where
  unfoldable pub single_signature_main : Action bls.World (List Line)
  single_signature_main = do
    signer ← random bls.new_signer
    private_key_bytes ← or_panic (lift (bls.marshal_signer signer))
    signature ← or_panic (lift (bls.sign signer "Hello BLS Signature"))
    let public_key = bls.get_public_key signer
    public_key_bytes ← or_panic (lift (bls.marshal_public_key public_key))
    elim (bls.verify public_key "Hello BLS Signature" signature) [
      | some _ ↦ panics
      | none ↦ pure (
          with_text "Private key (hex): %s" (bls.hex_encode private_key_bytes)
          ∷ with_text "Public key (hex): %s" (bls.hex_encode public_key_bytes)
          ∷ plain "Xác minh chữ ký thành công!"
          ∷ [])
    ]

  -- The aggregation of the signatures by a signer, and the check against the public keys.
  unfoldable pub aggregate_and_verify :
      bls.Signer → List bls.PublicKey → List bls.Signature → Action bls.World (Option Error)
  aggregate_and_verify signer public_keys sigs = do
    aggregated_sig ← or_panic (lift (bls.aggregate signer sigs))
    verifier ← or_panic (lift (bls.from_array signer public_keys))
    pure (bls.verify_all verifier multi_message aggregated_sig)

  unfoldable pub multi_signature_main : Action bls.World (List Line)
  unfolding aggregate_and_verify
  multi_signature_main = do
    signer1 ← random bls.new_signer
    signer2 ← random bls.new_signer
    signer3 ← random bls.new_signer
    signer4 ← random bls.new_signer
    let public_keys =
        bls.get_public_key signer1 ∷ bls.get_public_key signer2 ∷ bls.get_public_key signer3 ∷ []
    sig1 ← or_panic (lift (bls.sign signer1 multi_message))
    sig2 ← or_panic (lift (bls.sign signer2 multi_message))
    sig3 ← or_panic (lift (bls.sign signer3 multi_message))
    own ← aggregate_and_verify signer1 public_keys (sig1 ∷ sig2 ∷ sig3 ∷ [])
    other ← aggregate_and_verify signer4 public_keys (sig1 ∷ sig2 ∷ sig3 ∷ [])
    pure (
        verdict "Xác thực thất bại:" "Xác thực chữ ký tổng hợp thành công!" own
        ∷ verdict "Xác thực bằng signer4 thất bại:"
            "Xác thực chữ ký bằng signer4 tổng hợp thành công!" other
        ∷ [])

  unfoldable pub recover_main : Action bls.World (List Line)
  recover_main = do
    private_key_bytes ←
        or_panic
          (lift (bls.hex_decode "7ba018e438a0343d86e50ada05578624e6db846581e79ee82af41323e28712f4"))
    signer ← or_panic (lift (bls.new_signer_from_bytes private_key_bytes))
    public_key_bytes ← or_panic (lift (bls.marshal_public_key (bls.get_public_key signer)))
    pure (with_text "Public key (hex): %x" (bls.hex_encode public_key_bytes) ∷ [])
