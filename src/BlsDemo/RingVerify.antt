-- ===== src/BlsDemo/RingVerify.antt =====
-- What `verifyRingSignature` accepts (bls-demo/ring-signatures/ring-signatures.go).
use go_blockchain_demo.Prelude.{
  ℕ, suc, zero, String, ◌≡◌, ◌↔◌, inl, inr, refl, List, [], ◌∷◌, none, some, true, arith, eq_iff,
  length, Bool-cases, Option-cases,
}
use go_blockchain_demo.BlsDemo.Library.{Bls, get_elem?}
use go_blockchain_demo.BlsDemo.Ring.{
  RingSignature, concat, is_valid, valid_sig_found, verify_ring_signature,
}

module _ (bls : Bls) where
  -- The response at a place verifies under the key at that place.
  pub record ValidAt (message : String) (ring : List bls.PublicKey) (responses : List String)
      (i : ℕ) : Type 0 where
    pub key : bls.PublicKey
    pub response : String
    pub at_key : get_elem? ring i ≡ some key
    pub at_response : get_elem? responses i ≡ some response
    pub verifies : bls.verify key message (bls.new_signature response) ≡ none

  is_valid_lem :
      (key : bls.PublicKey) (message response : String)
      → (is_valid bls key message response ≡ true)
        ↔ (bls.verify key message (bls.new_signature response) ≡ none)
  unfolding is_valid
  is_valid_lem key message response =
      elim (Option-cases (bls.verify key message (bls.new_signature response))) [
        | inl e ↦ (λ _. e, λ _. ground (arith, e))
        | inr (error, e) ↦ (λ t. ground (arith, e, t), λ v. ground (arith, e, v))
      ]

  found :
      (message : String) (ring : List bls.PublicKey) (responses : List String)
      → valid_sig_found bls message ring responses ≡ true
      → (i : ℕ) × ValidAt message ring responses i
  unfolding valid_sig_found get_elem?
  found message [] responses e = cc
  found message (key ∷ ring) [] e = cc
  found message (key ∷ ring) (response ∷ responses) e =
      elim (Bool-cases (is_valid bls key message response)) [
        | inl valid ↦ (
          0,
          record {
            key = key;
            response = response;
            at_key = refl;
            at_response = refl;
            verifies = (is_valid_lem key message response).0 valid;
          },
        )
        | inr other ↦
            let (i, v) = found message ring responses (ground (arith, other, e)) in
            (
              suc i,
              record {
                key = v.key;
                response = v.response;
                at_key = v.at_key;
                at_response = v.at_response;
                verifies = v.verifies;
              },
            )
      ]

  pub finds :
      (message : String) (ring : List bls.PublicKey) (responses : List String) (i : ℕ)
      → ValidAt message ring responses i
      → valid_sig_found bls message ring responses ≡ true
  unfolding valid_sig_found get_elem?
  finds message [] responses i v = ground (arith, v.at_key)
  finds message (key ∷ ring) [] i v = ground (arith, v.at_response)
  finds message (key ∷ ring) (response ∷ responses) zero v =
      let here : bls.verify key message (bls.new_signature response) ≡ none = cc in
      ground (arith, (is_valid_lem key message response).1 here)
  finds message (key ∷ ring) (response ∷ responses) (suc i) v =
      let rest = finds message ring responses i (record {
        key = v.key;
        response = v.response;
        at_key = v.at_key;
        at_response = v.at_response;
        verifies = v.verifies;
      }) in
      ground (arith, rest)

  -- `verifyRingSignature` accepts exactly the signatures with as many responses as the ring has
  -- members, of which one, in its place, is the member's signature of the message, and with the hash
  -- of the responses as the challenge.
  pub verify_ring_signature_lem :
      (ring : List bls.PublicKey) (message : String) (signature : RingSignature bls.PublicKey)
      → (verify_ring_signature bls ring message signature ≡ true) ↔ (
          (length signature.responses ≡ length ring)
          × ((i : ℕ) × ValidAt message ring signature.responses i)
          × (signature.challenge ≡ bls.hash (concat signature.responses)))
  unfolding verify_ring_signature
  verify_ring_signature_lem ring message signature =
      let challenge = eq_iff signature.challenge (bls.hash (concat signature.responses)) in
      (
        λ accepted. (
          ground (arith, accepted),
          found message ring signature.responses (ground (arith, accepted)),
          ground (arith, accepted, challenge),
        ),
        λ (same_length, (i, valid), same_challenge). ground (
          arith,
          same_length,
          finds message ring signature.responses i valid,
          same_challenge,
          challenge,
        ),
      )
