-- ===== src/BlsDemo/RingCreate.antt =====
-- What `createRingSignature` makes (bls-demo/ring-signatures/ring-signatures.go).
use go_blockchain_demo.Prelude.{
  ℕ, ◌<◌, String, ◌≡◌, ◌≢◌, ◌↔◌, inl, inr, refl, sym, subst, ◌∙◌, List, none, some, true, ok, arith,
  effects, ◌==◌, length, Bool-cases, In, inl, inr,
}
use go_blockchain_demo.BlsDemo.Library.{Bls, get_elem?}
use go_blockchain_demo.BlsDemo.Ring.{
  RingSignature, concat, replace, create_ring_signature, verify_ring_signature,
}
use go_blockchain_demo.BlsDemo.RingVerify.{ValidAt, verify_ring_signature_lem}
use go_blockchain_demo.BlsDemo.RingFill.{
  IsComplete, drawn, Others, fill_responses-Filled, index_below, length-replace,
  get_elem?-replace_same, get_elem?-replace_other,
}

-- A signature verifies under no key but that of the signer who made it.
pub record IsSound (bls : Bls) : Type 0 where
  pub own_key :
      (signer : bls.Signer) (message bytes : String) (sig : bls.Signature) (key : bls.PublicKey)
      → bls.sign signer message ≡ ok sig
      → bls.marshal_signature sig ≡ ok bytes
      → bls.verify key message (bls.new_signature bytes) ≡ none
      → key ≡ bls.get_public_key signer

module _ (bls : Bls) (complete : IsComplete bls) where
  module _ (signer : bls.Signer) (ring : List bls.PublicKey) (k : ℕ)
      (member : get_elem? ring k ≡ some (bls.get_public_key signer)) where
    -- What the signature of the signer at place `k` is.
    record Created (message : String) (w : bls.World) (signature : RingSignature bls.PublicKey)
        : Type 0 where
      pub same_length : length signature.responses ≡ length ring
      pub at_signer : ValidAt bls message ring signature.responses k
      pub others : Others bls complete (drawn bls (length ring) w) k 0 message signature.responses
      pub challenge : signature.challenge ≡ bls.hash (concat signature.responses)

    create_ring_signature-Created :
        (message : String) (w : bls.World)
        → (signature : RingSignature bls.PublicKey) × (w' : bls.World) × (create_ring_signature bls
              signer ring k message w
            ≡ (ok signature, w'))
          × Created message w signature
    unfolding create_ring_signature effects
    create_ring_signature-Created message w =
        let (rs, w', fills, filled) = fill_responses-Filled bls complete k 0 message ring w in
        let (sig, bytes, signed, marshalled, verified) = complete.signs signer message in
        let below : k < length ring = index_below ring k _ member in
        let inside : k < length rs = subst (λ n. k < n) (sym filled.same_length) below in
        (
          record {
            challenge = bls.hash (concat (replace k bytes rs));
            responses = replace k bytes rs;
            message = message;
            ring = ring;
          },
          w',
          ground (arith, fills, signed, marshalled, below),
          record {
            same_length = length-replace k bytes rs ∙ filled.same_length;
            at_signer = record {
              key = bls.get_public_key signer;
              response = bytes;
              at_key = member;
              at_response = get_elem?-replace_same k bytes rs inside;
              verifies = verified;
            };
            others = λ j r e n.
                filled.others j r
                  (sym (get_elem?-replace_other k j bytes rs (λ h. n (omega arith))) ∙ e) n;
            challenge = refl;
          },
        )

    -- If every signer can sign, and the public key of the signer is at its place in the ring, then the
    -- signature that `createRingSignature` makes for that place is made, and `verifyRingSignature`
    -- accepts it for the ring and the message.
    pub verify_ring_signature-create_ring_signature :
        (message : String) (w : bls.World)
        → (signature : RingSignature bls.PublicKey) × (w' : bls.World) × (create_ring_signature bls
              signer ring k message w
            ≡ (ok signature, w'))
          × (verify_ring_signature bls ring message signature ≡ true)
    verify_ring_signature-create_ring_signature message w =
        let (signature, w', gives, created) = create_ring_signature-Created message w in
        (
          signature,
          w',
          gives,
          (verify_ring_signature_lem bls ring message signature).1
              (created.same_length, (k, created.at_signer), created.challenge),
        )

    -- If every signer can sign, a signature verifies under no key but its signer's, the public key of
    -- the signer is at its place in the ring, and none of as many signers as the ring has members that
    -- `NewSigner` makes next has a key of the ring, then `createRingSignature` makes a signature, and of
    -- its responses exactly the one at the signer's place verifies under the key of its place: it tells
    -- who signed.
    pub create_ring_signature-reveals :
        (message : String) (w : bls.World)
        → IsSound bls
        → ((other : bls.Signer) (i : ℕ) (key : bls.PublicKey)
            → In other (drawn bls (length ring) w)
            → get_elem? ring i ≡ some key
            → key ≢ bls.get_public_key other)
        → (signature : RingSignature bls.PublicKey) × (w' : bls.World) × (create_ring_signature bls
              signer ring k message w
            ≡ (ok signature, w'))
          × ((i : ℕ) → ValidAt bls message ring signature.responses i ↔ (i ≡ k))
    create_ring_signature-reveals message w sound outside =
        let (signature, w', gives, created) = create_ring_signature-Created message w in
        (
          signature,
          w',
          gives,
          λ i. (
            λ valid. elim (Bool-cases (i == k)) [
              | inl same ↦ ground (arith, same)
              | inr differs ↦
                  let (other, listed, sig, signed, marshalled) =
                    created.others i valid.response valid.at_response
                      (λ h. ground (arith, differs, h)) in
                  absurd (
                    outside other i valid.key listed valid.at_key (
                      sound.own_key other message valid.response sig valid.key signed marshalled
                        valid.verifies))
            ],
            λ same.
                subst (ValidAt bls message ring signature.responses) (sym same) created.at_signer,
          ),
        )
