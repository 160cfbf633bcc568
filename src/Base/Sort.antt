-- ===== src/Base/Sort.antt =====
-- Go's `sort.Slice` by a test `less`, which leaves the list in order. The keys that the program sorts
-- by differ, so the result does not depend on the algorithm.
use mathlib.Core.Path.{◌≡◌}
use mathlib.Core.Logic.{inl, inr}
use mathlib.Core.Bool.{Bool, true, false}
use mathlib.Core.List.{List, [], ◌∷◌, map, Perm}
use mathlib.Core.List.Perm
use pspxy.Base.Tests.{if◌then◌else◌, Bool-cases}
use pspxy.Base.Lists.{All}

module _ {ℓ} {A : Type ℓ} (less : A → A → Bool) where
  insert : A → List A → List A
  insert x [] = x ∷ []
  insert x (y ∷ ys) = let rest = insert x ys in if less y x then y ∷ rest else x ∷ y ∷ ys

  unfoldable pub sort : List A → List A
  unfolding insert
  sort [] = []
  sort (x ∷ xs) = insert x (sort xs)

  -- Nothing that comes later is less.
  abbrev pub IsSorted : List A → Type ℓ
  IsSorted [] = Unit
  IsSorted (x ∷ xs) = All (λ y. less y x ≡ false) xs × IsSorted xs

  insert-Perm : (x : A) (ys : List A) → Perm (insert x ys) (x ∷ ys)
  unfolding insert
  insert-Perm x [] = Perm.rfl
  insert-Perm x (y ∷ ys) = elim (Bool-cases (less y x)) [
    | inl e ↦ rw e (Perm.trans (Perm.cons y (insert-Perm x ys)) (Perm.swap x y ys))
    | inr e ↦ rw e Perm.rfl
  ]

  -- The list in order has the same items.
  pub sort-Perm : (xs : List A) → Perm (sort xs) xs
  unfolding sort
  sort-Perm [] = Perm.rfl
  sort-Perm (x ∷ xs) = Perm.trans (insert-Perm x (sort xs)) (Perm.cons x (sort-Perm xs))

  module _ (asym : (a b : A) → less a b ≡ true → less b a ≡ false)
      (chain : (a b c : A) → less b a ≡ false → less c b ≡ false → less c a ≡ false) where
    All-insert : (P : A → Type 0) (x : A) (ys : List A) → P x → All P ys → All P (insert x ys)
    unfolding insert
    All-insert P x [] p a = (p, tt)
    All-insert P x (y ∷ ys) p a = elim (Bool-cases (less y x)) [
      | inl e ↦ rw e (a.0, All-insert P x ys p a.1)
      | inr e ↦ rw e (p, a)
    ]

    below :
        (x y : A) (ys : List A)
        → less y x ≡ false
        → All (λ z. less z y ≡ false) ys
        → All (λ z. less z x ≡ false) ys
    below x y [] h a = tt
    below x y (z ∷ ys) h a = (chain x y z h a.0, below x y ys h a.1)

    insert-IsSorted : (x : A) (ys : List A) → IsSorted ys → IsSorted (insert x ys)
    unfolding insert
    insert-IsSorted x [] s = (tt, tt)
    insert-IsSorted x (y ∷ ys) s = elim (Bool-cases (less y x)) [
      | inl e ↦
          rw e (All-insert (λ z. less z y ≡ false) x ys (asym y x e) s.0, insert-IsSorted x ys s.1)
      | inr e ↦ rw e ((e, below x y ys e s.0), s)
    ]

    pub sort-IsSorted : (xs : List A) → IsSorted (sort xs)
    unfolding sort
    sort-IsSorted [] = tt
    sort-IsSorted (x ∷ xs) = insert-IsSorted x (sort xs) (sort-IsSorted xs)

module _ {ℓ} {A : Type ℓ} (less : A → A → Bool) (P : A → Type 0) where
  All-put : (x : A) (ys : List A) → P x → All P ys → All P (insert less x ys)
  unfolding insert
  All-put x [] p a = (p, tt)
  All-put x (y ∷ ys) p a = elim (Bool-cases (less y x)) [
    | inl e ↦ rw e (a.0, All-put x ys p a.1)
    | inr e ↦ rw e (p, a)
  ]

  All-back : (x : A) (ys : List A) → All P (insert less x ys) → P x × All P ys
  unfolding insert
  All-back x [] = λ a. a
  All-back x (y ∷ ys) =
      elim (less y x)
        as (λ b. All P (if b then y ∷ insert less x ys else x ∷ y ∷ ys) → P x × All P (y ∷ ys)) [
          | true ↦ λ a. (let (p, r) = All-back x ys a.1 in (p, (a.0, r)))
          | false ↦ λ a. a
        ]

  -- A list in order has what the list has.
  pub All-sort : (xs : List A) → All P xs → All P (sort less xs)
  unfolding sort
  All-sort [] a = tt
  All-sort (x ∷ xs) a = All-put x (sort less xs) a.0 (All-sort xs a.1)

  pub sort-All : (xs : List A) → All P (sort less xs) → All P xs
  unfolding sort
  sort-All [] a = tt
  sort-All (x ∷ xs) a = let (p, r) = All-back x (sort less xs) a in (p, sort-All xs r)

-- Each item stands in a relation to every later one.
abbrev pub Pairs {ℓ} : {A : Type ℓ} → (A → A → Type 0) → List A → Type 0
Pairs r [] = Unit
Pairs r (x ∷ xs) = All (r x) xs × Pairs r xs

module _ {ℓ} {A : Type ℓ} (less : A → A → Bool) (r : A → A → Type 0)
    (symm : (a b : A) → r a b → r b a) where
  Pairs-put : (x : A) (ys : List A) → All (r x) ys → Pairs r ys → Pairs r (insert less x ys)
  unfolding insert
  Pairs-put x [] a s = (tt, tt)
  Pairs-put x (y ∷ ys) a s = elim (Bool-cases (less y x)) [
    | inl e ↦ rw e (All-put less (r y) x ys (symm x y a.0) s.0, Pairs-put x ys a.1 s.1)
    | inr e ↦ rw e (a, s)
  ]

  -- Its order does not matter to a relation that is symmetric.
  pub Pairs-sort : (xs : List A) → Pairs r xs → Pairs r (sort less xs)
  unfolding sort
  Pairs-sort [] s = tt
  Pairs-sort (x ∷ xs) s =
      Pairs-put x (sort less xs) (All-sort less (r x) xs s.0) (Pairs-sort xs s.1)

module _ {ℓ} {A B : Type ℓ} (f : A → B) where
  pub All-map : (P : B → Type 0) (xs : List A) → All (λ x. P (f x)) xs → All P (map f xs)
  All-map P [] a = tt
  All-map P (x ∷ xs) a = (a.0, All-map P xs a.1)

  pub map-All : (P : B → Type 0) (xs : List A) → All P (map f xs) → All (λ x. P (f x)) xs
  map-All P [] a = tt
  map-All P (x ∷ xs) a = (a.0, map-All P xs a.1)

  pub Pairs-map :
      (r : B → B → Type 0) (xs : List A) → Pairs (λ x y. r (f x) (f y)) xs → Pairs r (map f xs)
  Pairs-map r [] s = tt
  Pairs-map r (x ∷ xs) s = (All-map (r (f x)) xs s.0, Pairs-map r xs s.1)

  pub map-Pairs :
      (r : B → B → Type 0) (xs : List A) → Pairs r (map f xs) → Pairs (λ x y. r (f x) (f y)) xs
  map-Pairs r [] s = tt
  map-Pairs r (x ∷ xs) s = (map-All (r (f x)) xs s.0, map-Pairs r xs s.1)

  map-insert_Perm :
      (less : A → A → Bool) (x : A) (ys : List A) → Perm (map f (insert less x ys)) (f x ∷ map f ys)
  unfolding insert
  map-insert_Perm less x [] = Perm.rfl
  map-insert_Perm less x (y ∷ ys) = elim (Bool-cases (less y x)) [
    | inl e ↦ rw e (
        Perm.trans (Perm.cons (f y) (map-insert_Perm less x ys)) (Perm.swap (f x) (f y) (map f ys)))
    | inr e ↦ rw e Perm.rfl
  ]

  pub map-sort_Perm : (less : A → A → Bool) (xs : List A) → Perm (map f (sort less xs)) (map f xs)
  unfolding sort
  map-sort_Perm less [] = Perm.rfl
  map-sort_Perm less (x ∷ xs) =
      Perm.trans (map-insert_Perm less x (sort less xs)) (Perm.cons (f x) (map-sort_Perm less xs))
