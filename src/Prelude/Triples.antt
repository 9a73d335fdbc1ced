-- ===== src/Prelude/Triples.antt =====
-- Rules for an action that keeps an invariant on every path: `Ensures P Q (m s)` says that `m`, run
-- at `s`, ends in a state with `P` if it fails or panics, and in one with `Q a` if it returns `a`.
use Prim.Native.String.{String}
use mathlib.Core.Path.{◌≡◌, refl, sym, subst}
use native.Mathlib.Omega.{arith}
use mathlib.Core.Bool.{Bool, true, false}
use go_blockchain_demo.Prelude.Tests.{if◌then◌else◌}
use go_blockchain_demo.Prelude.Effects.{
  Outcome, ok, err, panic, Error, Action, lift, on_error, wrapping, attempt, ◌>>=◌,
}

abbrev pub Post {ℓ} : {S A : Type 0} → (S → Type ℓ) → (A → S → Type ℓ) → Outcome A × S → Type ℓ
Post P Q (ok a, s) = Q a s
Post P Q (err _, s) = P s
Post P Q (panic, s) = P s

-- What is known after a call whose error is kept as a value.
abbrev pub Kept {ℓ} : {S A : Type 0} → (S → Type ℓ) → (A → S → Type ℓ) → Outcome A → S → Type ℓ
Kept P Q (ok a) s = Q a s
Kept P Q (err _) s = P s
Kept P Q panic s = P s

pub record Ensures {ℓ} {S A : Type 0} (P : S → Type ℓ) (Q : A → S → Type ℓ) (p : Outcome A × S)
    : Type ℓ where
  pub post : Post P Q p

module _ {ℓ} {S A : Type 0} {P : S → Type ℓ} {Q : A → S → Type ℓ} where
  pub ensure : {p : Outcome A × S} → Post P Q p → Ensures P Q p
  ensure h = record { post = h }

  pub Ensures-eq : {p q : Outcome A × S} → p ≡ q → Ensures P Q q → Ensures P Q p
  Ensures-eq e h = rw e h

  wrapped :
      (text : String) (p : Outcome A × S)
      → Ensures P Q p
      → Post P Q (wrapping {S = S} text (λ _. p) p.1)
  unfolding wrapping
  wrapped text (ok a, s) h = h.post
  wrapped text (err e, s) h = h.post
  wrapped text (panic, s) h = h.post

  pub Ensures-wrapping :
      (text : String) (m : Action S A) {s : S} → Ensures P Q (m s) → Ensures P Q (wrapping text m s)
  unfolding wrapping
  Ensures-wrapping text m {s} h = ensure (wrapped text (m s) h)

  handled :
      (k : Error → Action S A) (p : Outcome A × S)
      → Ensures P Q p
      → ((e : Error) (s : S) → P s → Ensures P Q (k e s))
      → Post P Q (on_error {S = S} (λ _. p) k p.1)
  unfolding on_error
  handled k (ok a, s) h c = h.post
  handled k (err e, s) h c = (c e s h.post).post
  handled k (panic, s) h c = h.post

  pub Ensures-on_error :
      (m : Action S A) (k : Error → Action S A) {s : S}
      → Ensures P Q (m s)
      → ((e : Error) (s' : S) → P s' → Ensures P Q (k e s'))
      → Ensures P Q (on_error m k s)
  unfolding on_error
  Ensures-on_error m k {s} h c = ensure (handled k (m s) h c)

  attempted : (p : Outcome A × S) → Ensures P Q p → Post P (Kept P Q) (attempt {S = S} (λ _. p) p.1)
  unfolding attempt
  attempted (ok a, s) h = h.post
  attempted (err e, s) h = h.post
  attempted (panic, s) h = h.post

  pub Ensures-attempt :
      (m : Action S A) {s : S} → Ensures P Q (m s) → Ensures P (Kept P Q) (attempt m s)
  unfolding attempt
  Ensures-attempt m {s} h = record { post = attempted (m s) h }

  pub Ensures-if :
      (b : Bool) (m n : Action S A) {s : S}
      → (b ≡ true → Ensures P Q (m s))
      → (b ≡ false → Ensures P Q (n s))
      → Ensures P Q ((if b then m else n) s)
  Ensures-if true m n h k = h refl
  Ensures-if false m n h k = k refl

module _ {ℓ ℓ'} {S A : Type 0} {P : S → Type ℓ} {Q : A → S → Type ℓ} {P' : S → Type ℓ'}
    {Q' : A → S → Type ℓ'} where
  weakened :
      (p : Outcome A × S)
      → ((s : S) → P s → P' s)
      → ((a : A) (s : S) → Q a s → Q' a s)
      → Ensures P Q p
      → Post P' Q' p
  weakened (ok a, s) f g h = g a s h.post
  weakened (err e, s) f g h = f s h.post
  weakened (panic, s) f g h = f s h.post

  pub Ensures-weaken :
      {p : Outcome A × S}
      → ((s : S) → P s → P' s)
      → ((a : A) (s : S) → Q a s → Q' a s)
      → Ensures P Q p
      → Ensures P' Q' p
  Ensures-weaken {p} f g h = ensure (weakened p f g h)

module _ {ℓ} {S A B : Type 0} {P : S → Type ℓ} {Q : A → S → Type ℓ} {R : B → S → Type ℓ} where
  bound :
      (f : A → Action S B) (p : Outcome A × S)
      → Ensures P Q p
      → ((a : A) (s : S) → Q a s → Ensures P R (f a s))
      → Post P R (((λ (_ : S). p) >>= f) p.1)
  unfolding ◌>>=◌
  bound f (ok a, s) h c = (c a s h.post).post
  bound f (err e, s) h c = h.post
  bound f (panic, s) h c = h.post

  pub Ensures-bind :
      (m : Action S A) (f : A → Action S B) {s : S}
      → Ensures P Q (m s)
      → ((a : A) (s' : S) → Q a s' → Ensures P R (f a s'))
      → Ensures P R ((m >>= f) s)
  unfolding ◌>>=◌
  Ensures-bind m f {s} h c = ensure (bound f (m s) h c)

pub Ensures-lift :
    {S A : Type 0} {P : S → Type 0} (o : Outcome A) (s : S)
    → P s
    → Ensures P (λ a s'. (s' ≡ s) × (o ≡ ok a)) (lift o s)
Ensures-lift (ok a) s h = ensure (refl, refl)
Ensures-lift (err e) s h = ensure h
Ensures-lift panic s h = ensure h

-- A step that reads leaves the node as it is, whatever it gives.
abbrev pub Reads : {S A : Type 0} → Action S A → S → Type 0
Reads m s = Ensures (λ s'. s' ≡ s) (λ _ s'. s' ≡ s) (m s)

pub Ensures-reads :
    {S A B : Type 0} {P : S → Type 0} {R : B → S → Type 0} (m : Action S A) (f : A → Action S B)
    {s : S}
    → P s
    → Reads m s
    → ((a : A) → Ensures P R (f a s))
    → Ensures P R ((m >>= f) s)
Ensures-reads {P} {R} m f {s} h reads then_ =
    Ensures-bind {Q = λ _ s'. s' ≡ s} m f
      (Ensures-weaken (λ s' e. subst P (sym e) h) (λ a s' e. e) reads)
      λ a s' e. subst (λ z. Ensures P R (f a z)) (sym e) (then_ a)

-- A step that gives one value, and leaves the node as it is.
pub Ensures-gives :
    {S A B : Type 0} {P : S → Type 0} {R : B → S → Type 0} (m : Action S A) (f : A → Action S B)
    {s : S} (a : A)
    → m s ≡ (ok a, s)
    → Ensures P R (f a s)
    → Ensures P R ((m >>= f) s)
unfolding ◌>>=◌
Ensures-gives {P} {R} m f {s} a gives h = Ensures-eq (ground (arith, gives)) h
