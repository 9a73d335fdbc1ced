-- ===== src/BlsDemo/Ring.antt =====
-- bls-demo/ring-signatures/ring-signatures.go
use Prim.Native.String.{◌++◌}
use go_blockchain_demo.Prelude.{
  ℕ, suc, zero, ◌+◌, String, List, [], ◌∷◌, map, none, some, Bool, true, false, not, ok, err, panic,
  Action, pure, panics, lift, attempt, wrapping, ◌>>=◌, ltb, ◌==◌, if◌then◌else◌, str_eq, length,
}
use go_blockchain_demo.BlsDemo.Library.{Bls, Line, plain, with_error, with_number, random, at_index}

-- `type RingSignature struct`
pub record RingSignature (PublicKey : Type 0) : Type 0 where
  pub challenge : String
  pub responses : List String
  pub message : String
  pub ring : List PublicKey

-- What the hasher is given by one `Write` after the other.
unfoldable pub concat : List String → String
concat [] = ""
concat (s ∷ ss) = s ++ concat ss

-- `responses[i] = response`
unfoldable pub replace : ℕ → String → List String → List String
replace i response [] = []
replace zero response (_ ∷ responses) = response ∷ responses
replace (suc i) response (r ∷ responses) = r ∷ replace i response responses

abbrev ring_message : String
ring_message = "Đây là một ví dụ về chữ ký vòng"

abbrev report : ℕ → Bool → List Line
report signer_index true =
    plain "Xác thực chữ ký vòng thành công!"
    ∷ with_number "Chữ ký có thể được tạo bởi bất kỳ thành viên nào trong số %d" 5
    ∷ with_number "Người ký thực sự là thành viên %d, nhưng điều này được ẩn khỏi người xác thực"
        signer_index
    ∷ []
report signer_index false = plain "Xác thực chữ ký vòng thất bại!" ∷ []

module _ (bls : Bls) where
  -- A response of a member who does not sign, by a signer that is made for it.
  unfoldable pub random_response : String → Action bls.World String
  random_response message = do
    temp_signer ← random bls.new_signer
    sig ← wrapping "không thể tạo chữ ký ngẫu nhiên" (lift (bls.sign temp_signer message))
    wrapping "không thể tạo chữ ký" (lift (bls.marshal_signature sig))

  -- The loop over the places from `i` on: the response of the signer stays nil.
  unfoldable pub fill_responses :
      ℕ → String → ℕ → List bls.PublicKey → Action bls.World (List String)
  unfolding random_response
  fill_responses signer_index message i [] = pure []
  fill_responses signer_index message i (_ ∷ ring) = do
    response ← (if i == signer_index then pure "" else random_response message)
    responses ← fill_responses signer_index message (i + 1) ring
    pure (response ∷ responses)

  -- `createRingSignature(signer, ring, signerIndex, message)`; `responses[signerIndex] = …` panics
  -- out of range, whether the signature can be marshalled or not.
  unfoldable pub create_ring_signature :
      bls.Signer → List bls.PublicKey → ℕ → String → Action bls.World (RingSignature bls.PublicKey)
  unfolding fill_responses replace concat
  create_ring_signature signer ring signer_index message = do
    random_responses ← fill_responses signer_index message 0 ring
    sig ← wrapping "không thể tạo chữ ký" (lift (bls.sign signer message))
    if not (ltb signer_index (length ring)) then panics else do
      response ← wrapping "không thể tạo chữ ký" (lift (bls.marshal_signature sig))
      let responses = replace signer_index response random_responses
      pure (record {
        challenge = bls.hash (concat responses);
        responses = responses;
        message = message;
        ring = ring;
      })

  unfoldable pub is_valid : bls.PublicKey → String → String → Bool
  is_valid key message response = elim (bls.verify key message (bls.new_signature response)) [
    | none ↦ true
    | some _ ↦ false
  ]

  -- The loop that ends at the first response that is the signature of the member in its place.
  unfoldable pub valid_sig_found : String → List bls.PublicKey → List String → Bool
  unfolding is_valid
  valid_sig_found message (key ∷ ring) (response ∷ responses) =
      let rest = valid_sig_found message ring responses in
      if is_valid key message response then true else rest
  valid_sig_found message _ _ = false

  -- `verifyRingSignature(ring, message, signature)`
  unfoldable pub verify_ring_signature :
      List bls.PublicKey → String → RingSignature bls.PublicKey → Bool
  unfolding valid_sig_found concat
  verify_ring_signature ring message signature =
      if not (length signature.responses == length ring)
      then false
      else if not (valid_sig_found message ring signature.responses)
      then false
      else str_eq signature.challenge (bls.hash (concat signature.responses))

  unfoldable pub new_signers : ℕ → Action bls.World (List bls.Signer)
  new_signers zero = pure []
  new_signers (suc n) = do
    signer ← random bls.new_signer
    signers ← new_signers n
    pure (signer ∷ signers)

  -- `main`: the lines that it prints if it does not panic
  unfoldable pub ring_main : Action bls.World (List Line)
  unfolding new_signers create_ring_signature verify_ring_signature
  ring_main = do
    signers ← new_signers 5
    let ring = map bls.get_public_key signers
    drawn ← attempt (bls.rand_int 5)
    elim drawn [
      | panic ↦ panics
      | err e ↦ pure (with_error "Lỗi khi tạo chỉ số ngẫu nhiên" e ∷ [])
      | ok index ↦ do
        signer ← at_index signers index
        created ← attempt (create_ring_signature signer ring index ring_message)
        elim created [
          | panic ↦ panics
          | err e ↦ pure (with_error "Lỗi khi tạo chữ ký vòng" e ∷ [])
          | ok signature ↦ pure (report index (verify_ring_signature ring ring_message signature))
        ]
    ]
