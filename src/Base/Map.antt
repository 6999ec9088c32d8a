-- ===== src/Base/Map.antt =====
-- A map from texts as the list of its entries in iteration order. A new key goes to the end, one
-- of the orders that a hash map may have; what is proved of a component says where order matters.
use Prim.Native.Nat.{ℕ, suc, ◌+◌}
use mathlib.Core.Path.{◌≡◌, refl, subst, ap₂}
use mathlib.Core.Logic.{inl, inr}
use mathlib.Core.Bool.{Bool, false, not, ◌&&◌}
use mathlib.Core.List.{List, [], ◌∷◌}
use mathlib.Core.Option.{Option, none, some}
use native.Mathlib.Omega.{arith}
use fluidbgoperator.Base.Tests.{if◌then◌else◌, Bool-cases, one_if}
use fluidbgoperator.Base.Lists.{All, length}
use fluidbgoperator.Base.Text.{Text, text_eq, text_eq_iff}

abbrev pub Map {ℓ} : Type ℓ → Type ℓ
Map V = List (Text × V)

module _ {ℓ} {V : Type ℓ} where
  unfoldable pub lookup : Text → Map V → Option V
  lookup k [] = none
  lookup k ((j, v) ∷ m) = if text_eq j k then some v else lookup k m

  unfoldable pub insert : Text → V → Map V → Map V
  insert k v [] = (k, v) ∷ []
  insert k v ((j, w) ∷ m) = if text_eq j k then (j, v) ∷ m else (j, w) ∷ insert k v m

  pub lookup-insert :
      (k j : Text) (v : V) (m : Map V)
      → lookup j (insert k v m) ≡ (if text_eq k j then some v else lookup j m)
  unfolding lookup insert
  lookup-insert k j v [] = refl
  lookup-insert k j v ((i, w) ∷ m) =
      ground (arith, text_eq_iff k j, text_eq_iff i k, text_eq_iff i j, lookup-insert k j v m)

  -- Keys occur once.
  unfoldable pub Distinct : Map V → Type ℓ
  Distinct [] = Unit
  Distinct ((k, v) ∷ m) = (lookup k m ≡ none) × Distinct m

  -- `HashMap::retain` with a test on the value.
  unfoldable pub retain : (V → Bool) → Map V → Map V
  retain p [] = []
  retain p ((k, v) ∷ m) = let rest = retain p m in if p v then (k, v) ∷ rest else rest

  -- `HashMap::values`.
  unfoldable pub values : Map V → List V
  values [] = []
  values ((k, v) ∷ m) = v ∷ values m

  unfoldable pub count_if : (V → Bool) → Map V → ℕ
  count_if p [] = 0
  count_if p ((k, v) ∷ m) = let rest = count_if p m in if p v then suc rest else rest

  pub lookup-All {κ} :
      (P : Text × V → Type κ) (m : Map V) (k : Text) (v : V)
      → All P m
      → lookup k m ≡ some v
      → P (k, v)
  unfolding lookup
  lookup-All P [] k v a e = absurd (cc)
  lookup-All P ((j, w) ∷ m) k v a e = elim (Bool-cases (text_eq j k)) [
    | inl hit ↦
        subst P
          (let p : j ≡ k = (text_eq_iff j k).0 hit in
            let q : w ≡ v = ground arith in ap₂ (λ x y. (x, y)) p q)
          a.0
    | inr miss ↦ lookup-All P m k v a.1 (rw (miss, lookup) at e)
  ]

  pub insert-All {κ} :
      (P : Text × V → Type κ) (m : Map V) (k : Text) (v : V)
      → P (k, v)
      → All P m
      → All P (insert k v m)
  unfolding insert
  insert-All P [] k v h a = (h, tt)
  insert-All P ((j, w) ∷ m) k v h a = elim (Bool-cases (text_eq j k)) [
    | inl hit ↦ rw hit (rw ((text_eq_iff j k).0 hit) h, a.1)
    | inr miss ↦ rw miss (a.0, insert-All P m k v h a.1)
  ]

  pub insert-Distinct : (m : Map V) (k : Text) (v : V) → Distinct m → Distinct (insert k v m)
  unfolding insert Distinct lookup
  insert-Distinct [] k v d = (refl, tt)
  insert-Distinct ((j, w) ∷ m) k v d = elim (Bool-cases (text_eq j k)) [
    | inl hit ↦ rw hit d
    | inr miss ↦ rw miss (
      ground (arith, lookup-insert k j v m, text_eq_iff k j, text_eq_iff j k),
      insert-Distinct m k v d.1,
    )
  ]

  pub retain-All {κ} :
      (P : Text × V → Type κ) (p : V → Bool) (m : Map V) → All P m → All P (retain p m)
  unfolding retain
  retain-All P p [] a = tt
  retain-All P p ((k, v) ∷ m) a = elim (Bool-cases (p v)) [
    | inl kept ↦ rw kept (a.0, retain-All P p m a.1)
    | inr dropped ↦ rw dropped (retain-All P p m a.1)
  ]

  pub retain-missing :
      (p : V → Bool) (m : Map V) (k : Text) → lookup k m ≡ none → lookup k (retain p m) ≡ none
  unfolding retain lookup
  retain-missing p [] k e = refl
  retain-missing p ((j, v) ∷ m) k e = ground (arith, retain-missing p m k)

  pub retain-Distinct : (p : V → Bool) (m : Map V) → Distinct m → Distinct (retain p m)
  unfolding retain Distinct
  retain-Distinct p [] d = tt
  retain-Distinct p ((k, v) ∷ m) d = elim (Bool-cases (p v)) [
    | inl kept ↦ rw kept (retain-missing p m k d.0, retain-Distinct p m d.1)
    | inr dropped ↦ rw dropped (retain-Distinct p m d.1)
  ]

  -- `retain` decides each key by its own value.
  pub lookup-retain :
      (p : V → Bool) (m : Map V) (k : Text) {v : V}
      → Distinct m
      → lookup k m ≡ some v
      → lookup k (retain p m) ≡ (if p v then some v else none)
  unfolding retain Distinct lookup
  lookup-retain p [] k d e = absurd (cc)
  lookup-retain p ((j, w) ∷ m) k {v} d e =
      ground (arith, lookup-retain p m k {v = v} d.1, retain-missing p m k, text_eq_iff j k)

  pub count_if-insert_old :
      (p : V → Bool) (m : Map V) (k : Text) (v : V) {w : V}
      → lookup k m ≡ some w
      → count_if p (insert k v m) + one_if (p w) ≡ count_if p m + one_if (p v)
  unfolding count_if insert lookup
  count_if-insert_old p [] k v e = absurd (cc)
  count_if-insert_old p ((j, u) ∷ m) k v {w} e = ground (arith, count_if-insert_old p m k v {w = w})

  pub count_if-insert_new :
      (p : V → Bool) (m : Map V) (k : Text) (v : V)
      → lookup k m ≡ none
      → count_if p (insert k v m) ≡ count_if p m + one_if (p v)
  unfolding count_if insert lookup
  count_if-insert_new p [] k v e = ground arith
  count_if-insert_new p ((j, u) ∷ m) k v e = ground (arith, count_if-insert_new p m k v)

  pub count_if-retain :
      (p q : V → Bool) (m : Map V) → count_if p (retain q m) ≡ count_if (λ v. q v && p v) m
  unfolding count_if retain
  count_if-retain p q [] = refl
  count_if-retain p q ((j, u) ∷ m) = ground (arith, count_if-retain p q m)

  -- What `retain` removes is what fails the test.
  pub length-retain :
      (p : V → Bool) (m : Map V) → length (retain p m) + count_if (λ v. not (p v)) m ≡ length m
  unfolding count_if retain
  length-retain p [] = refl
  length-retain p ((j, u) ∷ m) = ground (arith, length-retain p m)

  pub count_if-none : (p : V → Bool) (m : Map V) → ((v : V) → p v ≡ false) → count_if p m ≡ 0
  unfolding count_if
  count_if-none p [] h = refl
  count_if-none p ((j, u) ∷ m) h = ground (arith, count_if-none p m h, h u)

  -- Writing back what is there, and writing twice.
  pub insert-same : (k : Text) (v : V) (m : Map V) → lookup k m ≡ some v → insert k v m ≡ m
  unfolding insert lookup
  insert-same k v [] e = absurd (cc)
  insert-same k v ((j, w) ∷ m) e = ground (arith, insert-same k v m)

  pub insert-insert : (k : Text) (v w : V) (m : Map V) → insert k v (insert k w m) ≡ insert k v m
  unfolding insert
  insert-insert k v w [] = ground (arith, text_eq_iff k k)
  insert-insert k v w ((j, u) ∷ m) = ground (arith, insert-insert k v w m)
