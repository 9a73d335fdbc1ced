-- ===== src/BlsDemo/Threshold.antt =====
-- bls-demo/threshold-signatures/threshold-signatures.go. The counts t and n are not negative.
use go_blockchain_demo.Prelude.{
  ℕ, suc, zero, String, List, [], ◌∷◌, none, some, Outcome, ok, err, panic, Action, pure, fail,
  errorf, lift, wrapping, ◌>>=◌, ltb, if◌then◌else◌, length,
}
use go_blockchain_demo.BlsDemo.Library.{
  Bls, Line, plain, with_error, with_numbers, random, or_panic, at_index,
}

-- `type ThresholdSigner struct`; the suite is one constant of the library.
pub record ThresholdSigner (bls : Bls) : Type 0 where
  pub private : bls.PriShare
  pub public : bls.PubPoly
  pub threshold : ℕ
  pub total : ℕ

module _ (bls : Bls) where
  -- The loop that makes the signers: `shares[i]` is out of range where the shares have run out.
  unfoldable pub deal :
      bls.PubPoly → ℕ → ℕ → ℕ → List bls.PriShare → Outcome (List (ThresholdSigner bls))
  deal public t n zero shares = ok []
  deal public t n (suc count) [] = panic
  deal public t n (suc count) (share ∷ shares) = elim (deal public t n count shares) [
    | ok signers ↦
        ok (record { private = share; public = public; threshold = t; total = n } ∷ signers)
    | err e ↦ err e
    | panic ↦ panic
  ]

  -- `NewThresholdScheme(t, n)`
  unfoldable pub new_threshold_scheme : ℕ → ℕ → Action bls.World (List (ThresholdSigner bls))
  unfolding deal
  new_threshold_scheme t n =
      if ltb n t then fail (errorf "ngưỡng không thể lớn hơn tổng số người tham gia" "") else do
        secret ← random bls.pick
        pri_poly ← bls.new_pri_poly t secret
        lift (deal (bls.commit pri_poly) t n n (bls.shares pri_poly n))

  -- `(*ThresholdSigner).Sign(msg)`
  unfoldable pub threshold_sign : ThresholdSigner bls → String → Action bls.World bls.Signature
  threshold_sign ts msg = do
    sig ← wrapping "không thể tạo chữ ký" (lift (bls.tbls_sign ts.private msg))
    pure (bls.new_signature sig)

  -- The loop that marshals the signatures
  unfoldable pub marshal_all : List bls.Signature → Action bls.World (List String)
  marshal_all [] = pure []
  marshal_all (sig ∷ sigs) = do
    bytes ← wrapping "không thể chuyển đổi chữ ký" (lift (bls.marshal_bls_signature sig))
    rest ← marshal_all sigs
    pure (bytes ∷ rest)

  -- `RecoverSignature(msg, sigs, t, n, pubPoly)`
  unfoldable pub recover_signature :
      String → List bls.Signature → ℕ → ℕ → bls.PubPoly → Action bls.World bls.Signature
  unfolding marshal_all
  recover_signature msg sigs t n public =
      if ltb (length sigs) t then fail (errorf "không đủ chữ ký: đã có %d, cần %d" "") else do
        sig_bytes ← marshal_all sigs
        recovered ←
            wrapping "không thể khôi phục chữ ký" (lift (bls.tbls_recover public msg sig_bytes t n))
        pure (bls.new_signature recovered)

  -- The loop of `main` that collects the signatures of the signers from `i` on.
  unfoldable pub collect :
      String → List (ThresholdSigner bls) → ℕ → ℕ → Action bls.World (List bls.Signature)
  unfolding threshold_sign
  collect msg signers i zero = pure []
  collect msg signers i (suc count) = do
    signer ← at_index signers i
    sig ← or_panic (threshold_sign signer msg)
    sigs ← collect msg signers (suc i) count
    pure (sig ∷ sigs)

  -- `main`: the lines that it prints if it does not panic
  unfoldable pub threshold_main : Action bls.World (List Line)
  unfolding new_threshold_scheme recover_signature collect
  threshold_main = do
    signers ← or_panic (new_threshold_scheme 2 3)
    signatures ← collect "Test threshold signature" signers 0 2
    first ← at_index signers 0
    recovered ← or_panic (recover_signature "Test threshold signature" signatures 2 3 first.public)
    other ← random bls.new_signer
    v ← or_panic (lift (bls.from_array other (bls.group_key first.public ∷ [])))
    elim (bls.verify_all v "Test threshold signature" recovered) [
      | some e ↦ pure (with_error "Xác minh chữ ký thất bại:" e ∷ [])
      | none ↦ pure (
          plain "Xác minh chữ ký ngưỡng thành công!"
          ∷ with_numbers "Số chữ ký cần thiết: %d trên tổng số %d" 2 3
          ∷ [])
    ]
