-- ===== src/Base/Apart.antt =====
-- Maps whose entries do not clash: what a change of one entry asks for.
use mathlib.Core.Path.{◌≡◌, refl, sym, ◌∙◌, ap}
use mathlib.Core.Logic.{◌≢◌, ◌⊎◌, inl, inr}
use mathlib.Core.Bool.{Bool, false, not, ◌&&◌}
use mathlib.Core.List.{[], ◌∷◌}
use mathlib.Core.Option.{some}
use native.Mathlib.Omega.{arith}
use pspxy.Base.Tests.{Bool-cases}
use pspxy.Base.Texts.{Text, ◌==◌, eq_iff}
use pspxy.Base.Maps.{
  Dict, get, put, remove, map_values, get-put, get-remove, any_entry, any_entry-false,
}

-- What an entry of the map after `put` is.
pub found-put {ℓ} :
    {V : Type ℓ} (d : Dict V) (k i : Text) (v a : V)
    → get (put d k v) i ≡ some a
    → ((k ≡ i) × (v ≡ a)) ⊎ ((k ≢ i) × (get d i ≡ some a))
found-put d k i v a p = elim (Bool-cases (k == i)) [
  | inl x ↦ inl ((eq_iff k i).0 x, ground (arith, get-put d k i v))
  | inr x ↦ inr ((λ q. ground (arith, (eq_iff k i).1 q)), ground (arith, get-put d k i v))
]

module _ {ℓ κ} {V : Type ℓ} {C : Type κ} (f : V → C) where
  -- Every entry of the first map stands in the second one with the same `f`.
  abbrev pub IsWithin : Dict V → Dict V → Type (ℓ ⊔ κ)
  IsWithin d' d =
      (i : Text) (a : V) → get d' i ≡ some a → (b : V) × (get d i ≡ some b) × (f b ≡ f a)

  pub IsWithin-refl : (d : Dict V) → IsWithin d d
  IsWithin-refl d i a p = (a, p, refl)

  pub put-IsWithin :
      (d : Dict V) (k : Text) (v w : V) → get d k ≡ some w → f w ≡ f v → IsWithin (put d k v) d
  put-IsWithin d k v w g e i a p = elim (found-put d k i v a p) [
    | inl (x, y) ↦ (w, rw (← x) g, e ∙ ap f y)
    | inr (x, q) ↦ (a, q, refl)
  ]

  pub remove-IsWithin : (d : Dict V) (k : Text) → IsWithin (remove d k) d
  remove-IsWithin d k i a p = (a, ground (arith, get-remove d k i), refl)

  pub map_values-IsWithin :
      (h : V → V) (d : Dict V) → ((v : V) → f v ≡ f (h v)) → IsWithin (map_values h d) d
  unfolding map_values get
  map_values-IsWithin h [] e i a p = cc
  map_values-IsWithin h ((k, v) ∷ d) e i a p = elim (Bool-cases (k == i)) [
    | inl x ↦ (v, rw x refl, ground (arith, e v))
    | inr x ↦
        (let (b, at, same) = map_values-IsWithin h d e i a (ground arith) in (b, rw x at, same))
  ]

  -- No two entries under different keys clash.
  abbrev pub IsApart : (C → C → Bool) → Dict V → Type ℓ
  IsApart clash d =
      (i j : Text) (a b : V)
      → get d i ≡ some a
      → get d j ≡ some b
      → i ≢ j
      → clash (f a) (f b) ≡ false

  pub within-IsApart :
      (clash : C → C → Bool) (d' d : Dict V) → IsWithin d' d → IsApart clash d → IsApart clash d'
  within-IsApart clash d' d w h i j a b p q n =
      let (a', pa, ea) = w i a p in
      let (b', pb, eb) = w j b q in rw (← ea, ← eb) (h i j a' b' pa pb n)

  pub put-IsApart :
      (clash : C → C → Bool) (d : Dict V) (k : Text) (v : V)
      → ((a b : C) → clash a b ≡ clash b a)
      → any_entry (λ j b. not (j == k) && clash (f b) (f v)) d ≡ false
      → IsApart clash d
      → IsApart clash (put d k v)
  put-IsApart clash d k v comm free h i j a b p q n = elim (found-put d k i v a p) [
    | inl (x, y) ↦ elim (found-put d k j v b q) [
      | inl (x', y') ↦ absurd (n (sym x ∙ x'))
      | inr (x', q') ↦ rw (comm (f a) (f b)) (rw (← y) (apart j b q' x'))
    ]
    | inr (x, p') ↦ elim (found-put d k j v b q) [
      | inl (x', y') ↦ rw (← y') (apart i a p' x)
      | inr (x', q') ↦ h i j a b p' q' n
    ]
  ]
    where
      apart : (j : Text) (b : V) → get d j ≡ some b → k ≢ j → clash (f b) (f v) ≡ false
      apart j b at n =
          let s = any_entry-false (λ j b. not (j == k) && clash (f b) (f v)) d j b free at in
          elim (Bool-cases (j == k)) [
            | inl e ↦ absurd (n (sym ((eq_iff j k).0 e)))
            | inr e ↦ ground (arith, s)
          ]

-- No entry of the one map clashes with one of the other.
module _ {ℓ κ μ ν} {V : Type ℓ} {C : Type κ} {W : Type μ} {D : Type ν} where
  abbrev pub IsAgainst : (V → C) → (W → D) → (C → D → Bool) → Dict V → Dict W → Type (ℓ ⊔ μ)
  IsAgainst f g clash d e =
      (i j : Text) (a : V) (b : W) → get d i ≡ some a → get e j ≡ some b → clash (f a) (g b) ≡ false

module _ {ℓ κ μ ν} {V : Type ℓ} {C : Type κ} {W : Type μ} {D : Type ν} (f : V → C) (g : W → D)
    (clash : C → D → Bool) (d : Dict V) (e : Dict W) (h : IsAgainst f g clash d e) where
  pub within-IsAgainst :
      (d' : Dict V) (e' : Dict W) → IsWithin f d' d → IsWithin g e' e → IsAgainst f g clash d' e'
  within-IsAgainst d' e' w w' i j a b p q =
      let (a', pa, ea) = w i a p in
      let (b', pb, eb) = w' j b q in rw (← ea, ← eb) (h i j a' b' pa pb)

  pub put_left-IsAgainst :
      (k : Text) (v : V)
      → any_entry (λ j b. clash (f v) (g b)) e ≡ false
      → IsAgainst f g clash (put d k v) e
  put_left-IsAgainst k v free i j a b p q = elim (found-put d k i v a p) [
    | inl (x, y) ↦ rw (← y) (any_entry-false (λ j b. clash (f v) (g b)) e j b free q)
    | inr (x, p') ↦ h i j a b p' q
  ]

  pub put_right-IsAgainst :
      (k : Text) (w : W)
      → any_entry (λ j a. clash (f a) (g w)) d ≡ false
      → IsAgainst f g clash d (put e k w)
  put_right-IsAgainst k w free i j a b p q = elim (found-put e k j w b q) [
    | inl (x, y) ↦ rw (← y) (any_entry-false (λ j a. clash (f a) (g w)) d i a free p)
    | inr (x, q') ↦ h i j a b p q'
  ]
