-- ===== src/BlsDemo/Memory.antt =====
-- A concrete instance of the library of bls-demo/, in which a signature is the message with the key
-- behind it, and a new signer is called by the number of those before it. It shows that what the theorems ask of the library can hold.
use Prim.Native.String.{◌++◌}
use text.Mathlib.TextLemmas.{append_cancel_left}
use go_blockchain_demo.Prelude.{
  ℕ, suc, zero, String, ◌≡◌, refl, List, [], ◌∷◌, Option, none, some, ok, Error, library, str_eq,
  eq_refl, eq_iff, if◌then◌else◌, arith,
}
use go_blockchain_demo.BlsDemo.Library.{Bls}
use go_blockchain_demo.BlsDemo.RingFill.{IsComplete}
use go_blockchain_demo.BlsDemo.RingCreate.{IsSound}
use go_blockchain_demo.BlsDemo.Recovery.{IsScheme}

abbrev check : String → String → String → Option Error
check key message sig =
    if str_eq sig (message ++ key) then none else some (library "signature mismatch")

abbrev copies : String → ℕ → List String
copies share zero = []
copies share (suc n) = share ∷ copies share n

abbrev called : ℕ → String
called zero = "signer"
called (suc n) = called n ++ "'"

abbrev pub toy : Bls
toy = record {
  World = ℕ;
  Signer = String;
  PublicKey = String;
  Signature = String;
  Verifier = List String;
  Scalar = String;
  PriPoly = String;
  PriShare = String;
  PubPoly = String;
  new_signer = λ w. (called w, suc w);
  new_signer_from_bytes = λ b. ok b;
  marshal_signer = λ s. ok s;
  get_public_key = λ s. s;
  sign = λ s message. ok (message ++ s);
  aggregate = λ s sigs. ok s;
  from_array = λ s keys. ok keys;
  verify = check;
  verify_all = λ keys message sig. none;
  marshal_public_key = λ k. ok k;
  new_signature = λ b. b;
  marshal_signature = λ sig. ok sig;
  marshal_bls_signature = λ sig. ok sig;
  hash = λ b. b;
  hex_encode = λ b. b;
  hex_decode = λ b. ok b;
  rand_int = λ n w. (ok 0, w);
  pick = λ w. ("secret", w);
  new_pri_poly = λ t secret w. (ok secret, w);
  commit = λ poly. poly;
  shares = λ poly n. copies poly n;
  tbls_sign = λ share message. ok (message ++ share);
  tbls_recover = λ public message sigs t n. ok (message ++ public);
  group_key = λ public. public;
}

check_lem : (key message : String) → check key message (message ++ key) ≡ none
check_lem key message = ground (arith, eq_refl (message ++ key))

pub toy-IsComplete : IsComplete toy
toy-IsComplete = record { signs = λ signer message. (_, _, refl, refl, check_lem signer message) }

pub toy-IsSound : IsSound toy
toy-IsSound = record {
  own_key = λ signer message bytes sig key signed marshalled verified.
      let same : message ++ signer ≡ bytes = cc in
      append_cancel_left message key signer
        (ground (arith, verified, eq_iff bytes (message ++ key), same));
}

pub toy-IsScheme : (t n : ℕ) → IsScheme toy "secret" t n (copies "secret" n)
toy-IsScheme t n = record {
  signs = λ share msg. (_, refl);
  marshals = λ bytes. refl;
  recovers = λ msg sigs enough signed. (_, refl, check_lem "secret" msg);
}
