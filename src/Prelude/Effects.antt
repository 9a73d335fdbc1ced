-- ===== src/Prelude/Effects.antt =====
-- How Go code ends: with its results, with an error, or in a panic; and code that works on a state.
-- The state comes back in every case, since what was written stays written.
use Prim.Native.String.{String}

-- `errorf text arg` is `fmt.Errorf` with a text and at most one argument (empty if it has none or
-- more), `wrap text e` is `fmt.Errorf` with `%v` at an error `e`. `not_found` is
-- `errors.ErrNotFound` of leveldb, and `library` is any other error of code outside.
pub data Error : Type 0 where
  not_found : Error
  library : String → Error
  errorf : String → String → Error
  wrap : String → Error → Error

pub data Outcome {ℓ} (A : Type ℓ) : Type ℓ where
  ok : A → Outcome A
  err : Error → Outcome A
  panic : Outcome A

abbrev pub ⊤ : Type 0
⊤ = Unit

abbrev pub Action : Type 0 → Type 0 → Type 0
Action S A = S → Outcome A × S

module _ {S A : Type 0} where
  abbrev pub pure : A → Action S A
  pure a s = (ok a, s)

  abbrev pub fail : Error → Action S A
  fail e s = (err e, s)

  abbrev pub panics : Action S A
  panics s = (panic, s)

  abbrev pub gets : (S → A) → Action S A
  gets f s = (ok (f s), s)

  -- A call of code that neither reads nor writes the state.
  abbrev pub lift : Outcome A → Action S A
  lift r s = (r, s)

  -- `if err != nil { return fmt.Errorf(text, err) }` after a call.
  unfoldable pub wrapping : String → Action S A → Action S A
  wrapping text m s =
      let (r, s') = m s in
      elim r [ ok a ↦ (ok a, s') | err e ↦ (err (wrap text e), s') | panic ↦ (panic, s') ]

  -- A call whose error is kept as a value.
  unfoldable pub attempt : Action S A → Action S (Outcome A)
  attempt m s =
      let (r, s') = m s in
      elim r [ ok a ↦ (ok (ok a), s') | err e ↦ (ok (err e), s') | panic ↦ (panic, s') ]

  -- A call with what the code does before it returns the call's error.
  unfoldable pub on_error : Action S A → (Error → Action S A) → Action S A
  on_error m k s =
      let (r, s') = m s in elim r [ ok a ↦ (ok a, s') | err e ↦ k e s' | panic ↦ (panic, s') ]

abbrev pub modify : {S : Type 0} → (S → S) → Action S ⊤
modify f s = (ok tt, f s)

infixl 5 ◌>>=◌ ◌>>◌
unfoldable pub ◌>>=◌ : {S A B : Type 0} → Action S A → (A → Action S B) → Action S B
◌>>=◌ m f s =
    let (r, s') = m s in elim r [ ok a ↦ f a s' | err e ↦ (err e, s') | panic ↦ (panic, s') ]

abbrev pub ◌>>◌ : {S A B : Type 0} → Action S A → Action S B → Action S B
m >> k = m >>= λ _. k

-- Named on an `unfolding` line, this opens the operations that join actions.
unfoldable pub effects : ⊤
unfolding wrapping attempt on_error ◌>>=◌
effects = tt
