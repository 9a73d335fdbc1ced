-- ===== src/BlsDemo/Recovery.antt =====
-- The threshold scheme of bls-demo/threshold-signatures/threshold-signatures.go, from the shares of
-- the signers to the recovered signature.
use go_blockchain_demo.Prelude.{
  ⊤, ℕ, suc, zero, ◌+◌, ◌<◌, ◌≤◌, String, ◌≡◌, refl, ap, ◌∙◌, List, [], ◌∷◌, map, none, some, ok,
  err, errorf, arith, effects, length,
}
use go_blockchain_demo.BlsDemo.Library.{Bls, get_elem?, or_panic}
use go_blockchain_demo.BlsDemo.Threshold.{
  ThresholdSigner, deal, new_threshold_scheme, threshold_sign, marshal_all, recover_signature,
  collect,
}

elem_below :
    {A B : Type 0} (f : A → B) (xs : List A) (i : ℕ)
    → i < length xs
    → (x : A) × (get_elem? xs i ≡ some x) × (get_elem? (map f xs) i ≡ some (f x))
unfolding get_elem?
elem_below f [] i h = absurd (omega arith)
elem_below f (x ∷ xs) zero h = (x, refl, refl)
elem_below f (x ∷ xs) (suc i) h = elem_below f xs i (omega arith)

length-map : {A B : Type 0} (f : A → B) (xs : List A) → length (map f xs) ≡ length xs
length-map f [] = refl
length-map f (x ∷ xs) = ap suc (length-map f xs)

module _ (bls : Bls) where
  -- The signer of each share, who knows the public polynomial and the two counts.
  abbrev pub signer_of : bls.PubPoly → ℕ → ℕ → bls.PriShare → ThresholdSigner bls
  signer_of public t n share = record { private = share; public = public; threshold = t; total = n }

  deal_lem :
      (public : bls.PubPoly) (t n count : ℕ) (shares : List bls.PriShare)
      → length shares ≡ count
      → deal bls public t n count shares ≡ ok (map (signer_of public t n) shares)
  unfolding deal
  deal_lem public t n zero [] e = refl
  deal_lem public t n zero (_ ∷ shares) e = absurd (omega arith)
  deal_lem public t n (suc count) [] e = absurd (omega arith)
  deal_lem public t n (suc count) (share ∷ shares) e =
      ground (arith, deal_lem public t n count shares (omega arith))

  -- If a polynomial has as many shares as are asked for, and one can be made for the threshold, then
  -- `NewThresholdScheme` makes a signer of each share, all with the public polynomial of the shares,
  -- if the threshold is not above the count, and gives an error without drawing anything if it is.
  pub new_threshold_scheme_lem :
      (t n : ℕ) (w : bls.World) (poly : bls.PriPoly) (w' : bls.World)
      → bls.new_pri_poly t (bls.pick w).0 (bls.pick w).1 ≡ (ok poly, w')
      → length (bls.shares poly n) ≡ n
      → ((t ≤ n)
          → new_threshold_scheme bls t n w
            ≡ (ok (map (signer_of (bls.commit poly) t n) (bls.shares poly n)), w'))
        × ((n < t)
            → new_threshold_scheme bls t n w
              ≡ (err (errorf "ngưỡng không thể lớn hơn tổng số người tham gia" ""), w))
  unfolding new_threshold_scheme effects
  new_threshold_scheme_lem t n w poly w' drawn complete = (
    λ enough.
        ground
          (arith, enough, drawn, deal_lem (bls.commit poly) t n n (bls.shares poly n) complete),
    λ few. ground (arith, few),
  )

  -- The signatures of the message by the shares at the places from `i` on, as bytes.
  abbrev pub SignedFrom : String → List bls.PriShare → ℕ → List String → Type 0
  SignedFrom msg shares i [] = ⊤
  SignedFrom msg shares i (bytes ∷ rest) =
      ((share : bls.PriShare) × (get_elem? shares i ≡ some share)
        × (bls.tbls_sign share msg ≡ ok bytes))
      × SignedFrom msg shares (suc i) rest

  -- Every share can sign, a signature of such bytes marshals to them, and from the signatures of at
  -- least `t` shares a signature is recovered that verifies under the key of the group.
  pub record IsScheme (public : bls.PubPoly) (t n : ℕ) (shares : List bls.PriShare) : Type 0 where
    pub signs :
        (share : bls.PriShare) (msg : String)
        → (bytes : String) × (bls.tbls_sign share msg ≡ ok bytes)
    pub marshals : (bytes : String) → bls.marshal_bls_signature (bls.new_signature bytes) ≡ ok bytes
    pub recovers :
        (msg : String) (sigs : List String)
        → t ≤ length sigs
        → SignedFrom msg shares 0 sigs
        → (recovered : String) × (bls.tbls_recover public msg sigs t n ≡ ok recovered)
          × (bls.verify (bls.group_key public) msg (bls.new_signature recovered) ≡ none)

  module _ (public : bls.PubPoly) (t n : ℕ) (shares : List bls.PriShare)
      (scheme : IsScheme public t n shares) where
    marshal_all_lem :
        (sigs : List String) (w : bls.World)
        → marshal_all bls (map bls.new_signature sigs) w ≡ (ok sigs, w)
    unfolding marshal_all effects
    marshal_all_lem [] w = refl
    marshal_all_lem (bytes ∷ sigs) w = ground (arith, scheme.marshals bytes, marshal_all_lem sigs w)

    collects :
        (msg : String) (count i : ℕ) (w : bls.World)
        → i + count ≤ length shares
        → (sigs : List String) × (collect bls msg (map (signer_of public t n) shares) i count w
            ≡ (ok (map bls.new_signature sigs), w))
          × (length sigs ≡ count)
          × SignedFrom msg shares i sigs
    unfolding collect threshold_sign or_panic effects
    collects msg zero i w h = ([], refl, refl, tt)
    collects msg (suc count) i w h =
        let (share, there, there_too) = elem_below (signer_of public t n) shares i (omega arith) in
        let (bytes, signed) = scheme.signs share msg in
        let (sigs, gives, counted, all_signed) = collects msg count (suc i) w (omega arith) in
        (
          bytes ∷ sigs,
          ground (arith, there_too, signed, gives),
          ap suc counted,
          ((share, there, signed), all_signed),
        )

    -- If the shares are those of a threshold scheme, and there are as many as are asked for, then the
    -- signers of the first of them all sign, and `RecoverSignature` makes of their signatures one that
    -- the key of the group accepts, if they are at least as many as the threshold, and gives an error
    -- if they are fewer.
    pub recover_signature-collect :
        (msg : String) (count : ℕ) (w : bls.World)
        → count ≤ length shares
        → (sigs : List bls.Signature) × (collect bls msg
              (map (signer_of public t n) shares)
              0
              count
              w
            ≡ (ok sigs, w))
          × ((t ≤ count)
              → (recovered : bls.Signature) × (recover_signature bls msg sigs t n public w
                  ≡ (ok recovered, w))
                × (bls.verify (bls.group_key public) msg recovered ≡ none))
          × ((count < t)
              → recover_signature bls msg sigs t n public w
                ≡ (err (errorf "không đủ chữ ký: đã có %d, cần %d" ""), w))
    unfolding recover_signature effects
    recover_signature-collect msg count w h =
        let (sigs, gives, counted, signed) = collects msg count 0 w (omega arith) in
        let same = length-map bls.new_signature sigs ∙ counted in
        (
          map bls.new_signature sigs,
          gives,
          λ enough.
              let (recovered, recovers, verified) = scheme.recovers msg sigs (omega arith) signed in
              (
                bls.new_signature recovered,
                ground (arith, same, enough, marshal_all_lem sigs w, recovers),
                verified,
              ),
          λ few. ground (arith, same, few),
        )
