-- ===== src/BlsDemo/RingFill.antt =====
-- The responses that `createRingSignature` of bls-demo/ring-signatures/ring-signatures.go fills in.
use mathlib.Core.Option.{some-injective}
use go_blockchain_demo.Prelude.{
  ℕ, suc, zero, ◌+◌, ◌<◌, String, ◌≡◌, ◌≢◌, inl, inr, refl, ap, subst, List, [], ◌∷◌, none, some,
  ok, arith, effects, ◌==◌, length, Bool-cases, In, inl, inr,
}
use go_blockchain_demo.BlsDemo.Library.{Bls, get_elem?}
use go_blockchain_demo.BlsDemo.Ring.{replace, random_response, fill_responses}

-- Every signer can sign, and its marshalled signature verifies under its public key.
pub record IsComplete (bls : Bls) : Type 0 where
  pub signs :
      (signer : bls.Signer) (message : String)
      → (sig : bls.Signature) × (bytes : String) × (bls.sign signer message ≡ ok sig)
        × (bls.marshal_signature sig ≡ ok bytes)
        × (bls.verify (bls.get_public_key signer) message (bls.new_signature bytes) ≡ none)

pub length-replace : (i : ℕ) (r : String) (rs : List String) → length (replace i r rs) ≡ length rs
unfolding replace
length-replace i r [] = refl
length-replace zero r (_ ∷ rs) = refl
length-replace (suc i) r (_ ∷ rs) = ap suc (length-replace i r rs)

pub get_elem?-replace_same :
    (i : ℕ) (r : String) (rs : List String) → i < length rs → get_elem? (replace i r rs) i ≡ some r
unfolding replace get_elem?
get_elem?-replace_same i r [] h = absurd (omega arith)
get_elem?-replace_same zero r (_ ∷ rs) h = refl
get_elem?-replace_same (suc i) r (_ ∷ rs) h = get_elem?-replace_same i r rs (omega arith)

pub get_elem?-replace_other :
    (i j : ℕ) (r : String) (rs : List String)
    → j ≢ i
    → get_elem? (replace i r rs) j ≡ get_elem? rs j
unfolding replace get_elem?
get_elem?-replace_other i j r [] h = refl
get_elem?-replace_other zero zero r (_ ∷ rs) h = absurd (h refl)
get_elem?-replace_other zero (suc j) r (_ ∷ rs) h = refl
get_elem?-replace_other (suc i) zero r (_ ∷ rs) h = refl
get_elem?-replace_other (suc i) (suc j) r (_ ∷ rs) h =
    get_elem?-replace_other i j r rs (λ e. h (ap suc e))

pub index_below :
    {A : Type 0} (xs : List A) (i : ℕ) (x : A) → get_elem? xs i ≡ some x → i < length xs
unfolding get_elem?
index_below [] i x e = cc
index_below (_ ∷ xs) zero x e = omega arith
index_below (_ ∷ xs) (suc i) x e = let h = index_below xs i x e in omega arith

-- The signers that `n` calls of `bls.NewSigner` make, one after the other.
abbrev pub drawn : (bls : Bls) → ℕ → bls.World → List bls.Signer
drawn bls zero w = []
drawn bls (suc n) w = (bls.new_signer w).0 ∷ drawn bls n (bls.new_signer w).1

drawn_longer :
    (bls : Bls) (n : ℕ) (w : bls.World) (signer : bls.Signer)
    → In signer (drawn bls n w)
    → In signer (drawn bls (suc n) w)
drawn_longer bls zero w signer h = absurd h
drawn_longer bls (suc n) w signer (inl e) = inl e
drawn_longer bls (suc n) w signer (inr h) = inr (drawn_longer bls n (bls.new_signer w).1 signer h)

-- The signature of the message by one of some signers.
abbrev pub IsSignature : (bls : Bls) → List bls.Signer → String → String → Type 0
IsSignature bls signers message response =
    (signer : bls.Signer) × In signer signers
    × (sig : bls.Signature) × (bls.sign signer message ≡ ok sig)
    × (bls.marshal_signature sig ≡ ok response)

module _ (bls : Bls) (complete : IsComplete bls) where
  random_response_lem :
      (message : String) (w : bls.World)
      → (response : String) × (random_response bls message w ≡ (ok response, (bls.new_signer w).1))
        × IsSignature bls ((bls.new_signer w).0 ∷ []) message response
  unfolding random_response effects
  random_response_lem message w =
      let (sig, bytes, signed, marshalled, _) = complete.signs (bls.new_signer w).0 message in
      (
        bytes,
        ground (arith, signed, marshalled),
        ((bls.new_signer w).0, inl refl, sig, signed, marshalled),
      )

  -- The places from `i` on but `k` are filled by such signatures.
  abbrev pub Others : List bls.Signer → ℕ → ℕ → String → List String → Type 0
  Others signers k i message responses =
      (j : ℕ) (r : String)
      → get_elem? responses j ≡ some r
      → i + j ≢ k
      → IsSignature bls signers message r

  among :
      (signers more : List bls.Signer) (k i : ℕ) (message : String) (rs : List String)
      → ((signer : bls.Signer) → In signer signers → In signer more)
      → Others signers k i message rs
      → Others more k i message rs
  among signers more k i message rs wider others j r e n =
      let (signer, listed, sig, signed, marshalled) = others j r e n in
      (signer, wider signer listed, sig, signed, marshalled)

  filled_from :
      (signers : List bls.Signer) (k i : ℕ) (message r0 : String) (rs : List String)
      → (i ≢ k → IsSignature bls signers message r0)
      → Others signers k (i + 1) message rs
      → Others signers k i message (r0 ∷ rs)
  unfolding get_elem?
  filled_from signers k i message r0 rs first rest zero r e n =
      subst (IsSignature bls signers message) (some-injective r0 r e) (first (λ h. n (omega arith)))
  filled_from signers k i message r0 rs first rest (suc j) r e n = rest j r e (λ h. n (omega arith))

  pub record Filled (k i : ℕ) (message : String) (ring : List bls.PublicKey) (w : bls.World)
      (responses : List String) : Type 0 where
    pub same_length : length responses ≡ length ring
    pub others : Others (drawn bls (length ring) w) k i message responses

  pub fill_responses-Filled :
      (k i : ℕ) (message : String) (ring : List bls.PublicKey) (w : bls.World)
      → (responses : List String) × (w' : bls.World) × (fill_responses bls k message i ring w
          ≡ (ok responses, w'))
        × Filled k i message ring w responses
  unfolding fill_responses effects get_elem?
  fill_responses-Filled k i message [] w =
      ([], w, refl, record { same_length = refl; others = λ j r e n. cc })
  fill_responses-Filled k i message (key ∷ ring) w = elim (Bool-cases (i == k)) [
    | inl own ↦
        let (rs, w', fills, filled) = fill_responses-Filled k (i + 1) message ring w in
        let all = drawn bls (suc (length ring)) w in
        (
          "" ∷ rs,
          w',
          ground (arith, own, fills),
          record {
            same_length = ap suc filled.same_length;
            others =
                filled_from all k i message "" rs (λ n. absurd (n (ground (arith, own))))
                  (among (drawn bls (length ring) w) all k (i + 1) message rs
                    (drawn_longer bls (length ring) w) filled.others);
          },
        )
    | inr other ↦
        let (r0, gives, (signer, listed, sig, signed, marshalled)) =
          random_response_lem message w in
        let w1 = (bls.new_signer w).1 in
        let (rs, w', fills, filled) = fill_responses-Filled k (i + 1) message ring w1 in
        let all = drawn bls (suc (length ring)) w in
        (
          r0 ∷ rs,
          w',
          ground (arith, other, gives, fills),
          record {
            same_length = ap suc filled.same_length;
            others =
                filled_from all k i message r0 rs
                  (λ n. (
                    signer,
                    elim listed [ inl e ↦ inl e | inr h ↦ absurd h ],
                    sig,
                    signed,
                    marshalled,
                  ))
                  (among (drawn bls (length ring) w1) all k (i + 1) message rs (λ x h. inr h)
                    filled.others);
          },
        )
  ]
