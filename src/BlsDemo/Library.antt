-- ===== src/BlsDemo/Library.antt =====
-- The code outside the repository that the programs under bls-demo/ call, as a parameter: the BLS
-- signatures of go.dedis.ch/dela, the threshold signatures of go.dedis.ch/kyber, the hash of the
-- pairing suite, encoding/hex and crypto/rand. `World` is where the random numbers come from. A
-- []byte is a String.
use go_blockchain_demo.Prelude.{
  ℕ, suc, zero, String, List, [], ◌∷◌, Option, none, some, Outcome, ok, err, panic, Error, Action,
}

pub record Bls : Type 1 where
  pub World : Type 0
  -- bls.Signer, crypto.PublicKey, crypto.Signature and crypto.Verifier
  pub Signer : Type 0
  pub PublicKey : Type 0
  pub Signature : Type 0
  pub Verifier : Type 0
  -- kyber.Scalar, share.PriPoly, share.PriShare and share.PubPoly over the suite bn256
  pub Scalar : Type 0
  pub PriPoly : Type 0
  pub PriShare : Type 0
  pub PubPoly : Type 0
  -- bls.NewSigner, NewSignerFromBytes, and the methods of a signer
  pub new_signer : World → Signer × World
  pub new_signer_from_bytes : String → Outcome Signer
  pub marshal_signer : Signer → Outcome String
  pub get_public_key : Signer → PublicKey
  pub sign : Signer → String → Outcome Signature
  pub aggregate : Signer → List Signature → Outcome Signature
  -- signer.GetVerifierFactory().FromArray(publicKeys)
  pub from_array : Signer → List PublicKey → Outcome Verifier
  -- the errors of the two methods Verify: `none` is nil
  pub verify : PublicKey → String → Signature → Option Error
  pub verify_all : Verifier → String → Signature → Option Error
  pub marshal_public_key : PublicKey → Outcome String
  pub new_signature : String → Signature
  -- sig.MarshalBinary(), and sig.(bls.Signature).MarshalBinary(), which panics at another type
  pub marshal_signature : Signature → Outcome String
  pub marshal_bls_signature : Signature → Outcome String
  -- the hash of the suite, and encoding/hex
  pub hash : String → String
  pub hex_encode : String → String
  pub hex_decode : String → Outcome String
  -- rand.Int(rand.Reader, max)
  pub rand_int : ℕ → World → Outcome ℕ × World
  -- suite.G2().Scalar().Pick(…), share.NewPriPoly(…, t, secret, …), Commit and Shares(n)
  pub pick : World → Scalar × World
  pub new_pri_poly : ℕ → Scalar → World → Outcome PriPoly × World
  pub commit : PriPoly → PubPoly
  pub shares : PriPoly → ℕ → List PriShare
  -- tbls.Sign, tbls.Recover, and bls.NewPublicKeyFromPoint(public.Commit())
  pub tbls_sign : PriShare → String → Outcome String
  pub tbls_recover : PubPoly → String → List String → ℕ → ℕ → Outcome String
  pub group_key : PubPoly → PublicKey

-- A line that a program prints: a text, with an error, a text or one or two numbers in it.
pub data Line : Type 0 where
  plain : String → Line
  with_error : String → Error → Line
  with_text : String → String → Line
  with_number : String → ℕ → Line
  with_numbers : String → ℕ → ℕ → Line

-- A call that draws random numbers.
abbrev pub random : {W A : Type 0} → (W → A × W) → Action W A
random f w = let (a, w') = f w in (ok a, w')

-- `if err != nil { panic(…) }` after a call
unfoldable pub or_panic : {W A : Type 0} → Action W A → Action W A
or_panic m w =
    let (r, w') = m w in elim r [ ok a ↦ (ok a, w') | err _ ↦ (panic, w') | panic ↦ (panic, w') ]

-- `xs[i]`, which is out of range where there is none
unfoldable pub get_elem? : {A : Type 0} → List A → ℕ → Option A
get_elem? [] i = none
get_elem? (x ∷ xs) zero = some x
get_elem? (x ∷ xs) (suc i) = get_elem? xs i

abbrev pub at_index : {W A : Type 0} → List A → ℕ → Action W A
at_index xs i w = elim (get_elem? xs i) [ none ↦ (panic, w) | some x ↦ (ok x, w) ]
