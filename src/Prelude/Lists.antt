-- ===== src/Prelude/Lists.antt =====
-- Lists measured by native numbers, membership tests, and dictionaries as association lists.
use Prim.Native.Nat.{ℕ, suc, ◌+◌}
use Prim.Native.String.{String}
use mathlib.Core.Path.{◌≡◌, refl, sym}
use mathlib.Core.Logic.{inl, inr, ◌⊎◌, ◌↔◌}
use mathlib.Core.Bool.{Bool, true, false, ◌&&◌, ◌||◌}
use mathlib.Core.Option.{Option, none, some}
use mathlib.Core.List.{List, [], ◌∷◌, ◌++◌, Memᴰ}
use native.Mathlib.Omega.{arith}
use cft_security_agent.Prelude.Tests.{Comparable, ◌==◌, text_eq, if◌then◌else◌, Bool-cases}

module _ {ℓ} {A : Type ℓ} where
  abbrev pub length : List A → ℕ
  length [] = 0
  length (x ∷ xs) = suc (length xs)

  pub length-append : (xs ys : List A) → length (xs ++ ys) ≡ length xs + length ys
  length-append [] ys = omega arith
  length-append (x ∷ xs) ys = omega (arith, length-append xs ys)

  -- `bool(xs)`
  abbrev pub non_empty : List A → Bool
  non_empty [] = false
  non_empty (x ∷ xs) = true

  -- `any(p(x) for x in xs)` and `all(p(x) for x in xs)`
  abbrev pub any : (A → Bool) → List A → Bool
  any p [] = false
  any p (x ∷ xs) = p x || any p xs

  abbrev pub all : (A → Bool) → List A → Bool
  all p [] = true
  all p (x ∷ xs) = p x && all p xs

  -- `[x for x in xs if p(x)]`
  abbrev pub keep : (A → Bool) → List A → List A
  keep p [] = []
  keep p (x ∷ xs) = let rest = keep p xs in if p x then x ∷ rest else rest

module _ {ℓ κ} {A : Type ℓ} where
  abbrev pub All : (A → Type κ) → List A → Type κ
  All P [] = Unit
  All P (x ∷ xs) = P x × All P xs

module _ {ℓ} {A : Type ℓ} ⦃e : Comparable A⦄ where
  -- `a in xs`
  abbrev pub contains : A → List A → Bool
  contains a [] = false
  contains a (x ∷ xs) = x == a || contains a xs

  pub contains→Mem : (a : A) (xs : List A) → contains a xs ≡ true → Memᴰ a xs
  contains→Mem a (x ∷ xs) h = elim (Bool-cases (x == a)) [
    | inl p ↦ Memᴰ.head (sym ((e.same_iff x a).0 p))
    | inr q ↦ Memᴰ.tail (contains→Mem a xs (rw q at h))
  ]
  contains→Mem a [] h = cc

module _ {ℓ} {V : Type ℓ} where
  -- `d.get(key)`
  unfoldable pub lookup : String → List (String × V) → Option V
  lookup key [] = none
  lookup key ((k, value) ∷ rest) = if k == key then some value else lookup key rest

  -- `d[key] = v`, which keeps the place of a key that is there
  unfoldable pub insert : String → V → List (String × V) → List (String × V)
  insert key value [] = (key, value) ∷ []
  insert key value ((k, old) ∷ rest) =
      let later = insert key value rest in
      if k == key then (key, value) ∷ rest else (k, old) ∷ later

  -- `d.pop(key, None)`
  unfoldable pub remove : String → List (String × V) → List (String × V)
  remove k [] = []
  remove k ((j, w) ∷ m) = let rest = remove k m in if j == k then rest else (j, w) ∷ rest

  pub lookup-insert :
      (key j : String) (value : V) (table : List (String × V))
      → lookup j (insert key value table) ≡ (if key == j then some value else lookup j table)
  unfolding lookup insert
  lookup-insert k j v [] = refl
  lookup-insert k j v ((i, w) ∷ m) = ground (
    arith,
    text_eq.same_iff k j,
    text_eq.same_iff i k,
    text_eq.same_iff i j,
    lookup-insert k j v m,
  )

  pub lookup-remove :
      (k j : String) (m : List (String × V))
      → lookup j (remove k m) ≡ (if k == j then none else lookup j m)
  unfolding lookup remove
  lookup-remove k j [] = ground arith
  lookup-remove k j ((i, w) ∷ m) =
      ground (
        arith,
        text_eq.same_iff i k,
        text_eq.same_iff i j,
        text_eq.same_iff k j,
        lookup-remove k j m,
      )

module _ {ℓ} {A : Type ℓ} where
  -- some member of the list has the property, with the place kept
  abbrev pub Some : (A → Type 0) → List A → Type 0
  Some P [] = ⊥
  Some P (x ∷ xs) = P x ⊎ Some P xs

-- membership of a text, as a type
abbrev pub In : String → List String → Type 0
In a xs = Some (λ x. x ≡ a) xs

pub contains_iff : (a : String) (xs : List String) → (contains a xs ≡ true) ↔ In a xs
contains_iff a [] = ground arith
contains_iff a (x ∷ xs) = ground (arith, text_eq.same_iff x a, contains_iff a xs)

module _ {ℓ} {V : Type ℓ} where
  -- the keys of a dictionary
  abbrev pub keys : List (String × V) → List String
  keys [] = []
  keys ((k, v) ∷ m) = k ∷ keys m

-- how often a text is in a list
unfoldable pub occurrences : String → List String → ℕ
occurrences a [] = 0
occurrences a (x ∷ xs) = (if x == a then 1 else 0) + occurrences a xs

pub occurrences-append :
    (a b : String) (xs ys : List String)
    → occurrences a (xs ++ b ∷ ys) ≡ (if b == a then 1 else 0) + occurrences a (xs ++ ys)
unfolding occurrences
occurrences-append a b [] ys = refl
occurrences-append a b (x ∷ xs) ys = omega (arith, occurrences-append a b xs ys)
