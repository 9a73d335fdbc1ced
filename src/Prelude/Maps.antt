-- ===== src/Prelude/Maps.antt =====
-- A Go map with string keys, as an association list: a key is listed once.
use Prim.Native.String.{String}
use Prim.Native.Nat.{ℕ, suc}
use mathlib.Core.Path.{◌≡◌, refl, ap, ap₂, subst}
use mathlib.Core.Logic.{◌⊎◌, inl, inr}
use mathlib.Core.Option.{Option, none, some}
use mathlib.Core.List.{List, [], ◌∷◌, map}
use native.Mathlib.Omega.{arith}
use text.Mathlib.Text.{◌==◌ as str_eq}
use text.Mathlib.TextEquality.{eq_iff}
use go_blockchain_demo.Prelude.Tests.{if◌then◌else◌, Bool-cases}

abbrev pub Assoc {ℓ} : Type ℓ → Type ℓ
Assoc V = List (String × V)

module _ {ℓ} {V : Type ℓ} where
  -- `len(m)`
  abbrev pub length : List V → ℕ
  length [] = 0
  length (x ∷ xs) = suc (length xs)

  -- `delete(m, k)`
  unfoldable pub erase : String → Assoc V → Assoc V
  erase key [] = []
  erase key (entry ∷ entries) =
      let others = erase key entries in if str_eq entry.0 key then others else entry ∷ others

  -- `m[k]`
  unfoldable pub lookup : String → Assoc V → Option V
  lookup key [] = none
  lookup key (entry ∷ entries) =
      let further = lookup key entries in if str_eq entry.0 key then some entry.1 else further

  pub lookup-erase :
      (key other : String) (entries : Assoc V)
      → lookup other (erase key entries) ≡ (if str_eq key other then none else lookup other entries)
  unfolding erase lookup
  lookup-erase key other [] = ground arith
  lookup-erase key other ((name, value) ∷ entries) =
      ground (
        arith,
        eq_iff name key,
        eq_iff name other,
        eq_iff key other,
        lookup-erase key other entries,
      )

  -- `m[k] = v`
  unfoldable pub insert : String → V → Assoc V → Assoc V
  insert key value [] = (key, value) ∷ []
  insert key value (entry ∷ entries) =
      let added = insert key value entries in
      if str_eq entry.0 key then (key, value) ∷ entries else entry ∷ added

  pub lookup-insert :
      (key other : String) (value : V) (entries : Assoc V)
      → lookup other (insert key value entries)
        ≡ (if str_eq key other then some value else lookup other entries)
  unfolding insert lookup
  lookup-insert key other value [] = refl
  lookup-insert key other value ((name, old) ∷ entries) = ground (
    arith,
    eq_iff name other,
    eq_iff name key,
    eq_iff key other,
    lookup-insert key other value entries,
  )

abbrev pub In : {A : Type 0} → A → List A → Type 0
In a [] = ⊥
In a (b ∷ bs) = (b ≡ a) ⊎ In a bs

module _ {V : Type 0} where
  pub lookup-In :
      (key : String) (value : V) (entries : Assoc V)
      → lookup key entries ≡ some value
      → In (key, value) entries
  unfolding lookup
  lookup-In key value [] found = cc
  lookup-In key value ((name, first) ∷ entries) found = elim (Bool-cases (str_eq name key)) [
    | inl same ↦
        let e : first ≡ value = ground (arith, same, found) in
        inl (ap₂ (λ k v. (k, v)) (ground (arith, eq_iff name key)) e)
    | inr other ↦ inr (lookup-In key value entries (ground (arith, other, found)))
  ]

  pub In-erase :
      (key : String) (e : String × V) (entries : Assoc V) → In e (erase key entries) → In e entries
  unfolding erase
  In-erase key e [] h = h
  In-erase key e (entry ∷ entries) h = elim (Bool-cases (str_eq entry.0 key)) [
    | inl same ↦
        let gone : erase key (entry ∷ entries) ≡ erase key entries = ground (arith, same) in
        inr (In-erase key e entries (subst (In e) gone h))
    | inr other ↦
        let kept : erase key (entry ∷ entries) ≡ entry ∷ erase key entries =
          ground (arith, other) in
        elim (subst (In e) kept h) [
          | inl here ↦ inl here
          | inr later ↦ inr (In-erase key e entries later)
        ]
  ]

  pub In-values :
      (value : V) (entries : Assoc V)
      → In value (map (λ e. e.1) entries)
      → (key : String) × In (key, value) entries
  In-values value [] h = absurd h
  In-values value ((name, first) ∷ entries) (inl e) = (name, inl (ap (λ v. (name, v)) e))
  In-values value (entry ∷ entries) (inr h) =
      let (key, later) = In-values value entries h in (key, inr later)

  pub In-insert :
      (key : String) (value : V) (e : String × V) (entries : Assoc V)
      → In e (insert key value entries)
      → ((key, value) ≡ e) ⊎ In e entries
  unfolding insert
  In-insert key value e [] (inl here) = inl here
  In-insert key value e [] (inr h) = absurd h
  In-insert key value e (entry ∷ entries) h = elim (Bool-cases (str_eq entry.0 key)) [
    | inl same ↦
        let replaced : insert key value (entry ∷ entries) ≡ (key, value) ∷ entries =
          ground (arith, same) in
        elim (subst (In e) replaced h) [ inl here ↦ inl here | inr later ↦ inr (inr later) ]
    | inr other ↦
        let kept : insert key value (entry ∷ entries) ≡ entry ∷ insert key value entries =
          ground (arith, other) in
        elim (subst (In e) kept h) [
          | inl here ↦ inr (inl here)
          | inr later ↦ elim (In-insert key value e entries later) [
            | inl new ↦ inl new
            | inr old ↦ inr (inr old)
          ]
        ]
  ]
