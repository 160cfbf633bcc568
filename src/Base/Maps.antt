-- ===== src/Base/Maps.antt =====
-- Go's maps with text keys, as association lists whose keys are distinct. A `range` loop takes
-- the entries in the order of the list: Go promises no order, and the proofs use none.
use Prim.Native.Nat.{ℕ, suc}
use mathlib.Core.Path.{◌≡◌, refl, ap}
use mathlib.Core.Logic.{inl, inr}
use mathlib.Core.Bool.{Bool, true, false, ◌||◌}
use mathlib.Core.List.{List, [], ◌∷◌}
use mathlib.Core.Option.{Option, none, some}
use native.Mathlib.Omega.{arith}
use pspxy.Base.Tests.{if◌then◌else◌, is_some, Bool-cases}
use pspxy.Base.Lists.{length, any}
use pspxy.Base.Texts.{Text, ◌==◌, eq_iff, eq_refl}

abbrev pub Dict {ℓ} : Type ℓ → Type ℓ
Dict V = List (Text × V)

module _ {ℓ} {V : Type ℓ} where
  -- d[k], with its `ok` flag
  unfoldable pub get : Dict V → Text → Option V
  get [] k = none
  get ((j, v) ∷ d) k = if j == k then some v else get d k

  -- d[k] = v
  unfoldable pub put : Dict V → Text → V → Dict V
  put [] k v = (k, v) ∷ []
  put ((j, w) ∷ d) k v = if j == k then (k, v) ∷ d else (j, w) ∷ put d k v

  -- delete(d, k)
  unfoldable pub remove : Dict V → Text → Dict V
  remove [] k = []
  remove ((j, w) ∷ d) k = let rest = remove d k in if j == k then rest else (j, w) ∷ rest

  -- The entries in the order of a `range` loop.
  unfoldable pub values : Dict V → List V
  values [] = []
  values ((j, v) ∷ d) = v ∷ values d

  -- A `range` loop that deletes the entries which fail a test of the key.
  unfoldable pub keep_keys : (Text → Bool) → Dict V → Dict V
  keep_keys p [] = []
  keep_keys p ((j, w) ∷ d) = let rest = keep_keys p d in if p j then (j, w) ∷ rest else rest

  unfoldable pub map_values : (V → V) → Dict V → Dict V
  map_values f [] = []
  map_values f ((j, v) ∷ d) = (j, f v) ∷ map_values f d

  pub get-put :
      (d : Dict V) (k j : Text) (v : V) → get (put d k v) j ≡ (if k == j then some v else get d j)
  unfolding get put
  get-put [] k j v = refl
  get-put ((i, w) ∷ d) k j v = ground (arith, eq_iff k j, eq_iff i k, eq_iff i j, get-put d k j v)

  pub get-remove :
      (d : Dict V) (k j : Text) → get (remove d k) j ≡ (if k == j then none else get d j)
  unfolding get remove
  get-remove [] k j = ground arith
  get-remove ((i, w) ∷ d) k j = ground (arith, eq_iff k j, eq_iff i k, eq_iff i j, get-remove d k j)

  pub get-keep_keys :
      (p : Text → Bool) (d : Dict V) (k : Text)
      → get (keep_keys p d) k ≡ (if p k then get d k else none)
  unfolding get keep_keys
  get-keep_keys p [] k = ground arith
  get-keep_keys p ((i, w) ∷ d) k = elim (Bool-cases (i == k)) [
    | inl e ↦ rw ((eq_iff i k).0 e) (ground (arith, eq_refl k, get-keep_keys p d k))
    | inr e ↦ ground (arith, get-keep_keys p d k)
  ]

  pub get-put_self : (d : Dict V) (k : Text) (v : V) → get (put d k v) k ≡ some v
  get-put_self d k v = simp (get-put, eq_refl)

  pub get-remove_self : (d : Dict V) (k : Text) → get (remove d k) k ≡ none
  get-remove_self d k = simp (get-remove, eq_refl)

  -- No key stands twice.
  abbrev pub IsDistinct : Dict V → Type ℓ
  IsDistinct [] = Unit
  IsDistinct ((j, v) ∷ d) = (get d j ≡ none) × IsDistinct d

  pub put-IsDistinct : (d : Dict V) (k : Text) (v : V) → IsDistinct d → IsDistinct (put d k v)
  unfolding get put
  put-IsDistinct [] k v h = (refl, tt)
  put-IsDistinct ((j, w) ∷ d) k v h = elim (Bool-cases (j == k)) [
    | inl e ↦ rw e (rw (← (eq_iff j k).0 e) h.0, h.1)
    | inr e ↦
        rw e (ground (arith, get-put d k j v, eq_iff j k, eq_iff k j), put-IsDistinct d k v h.1)
  ]

  pub remove-IsDistinct : (d : Dict V) (k : Text) → IsDistinct d → IsDistinct (remove d k)
  unfolding get remove
  remove-IsDistinct [] k h = tt
  remove-IsDistinct ((j, w) ∷ d) k h =
      ground (arith, get-remove d k j, eq_iff k j, remove-IsDistinct d k h.1)

  pub keep_keys-IsDistinct :
      (p : Text → Bool) (d : Dict V) → IsDistinct d → IsDistinct (keep_keys p d)
  unfolding get keep_keys
  keep_keys-IsDistinct p [] h = tt
  keep_keys-IsDistinct p ((j, w) ∷ d) h =
      ground (arith, get-keep_keys p d j, keep_keys-IsDistinct p d h.1)

  -- len(d)
  abbrev pub size : Dict V → ℕ
  size d = length d

  pub size-put :
      (d : Dict V) (k : Text) (v : V)
      → size (put d k v) ≡ (if is_some (get d k) then size d else suc (size d))
  unfolding get put
  size-put [] k v = refl
  size-put ((j, w) ∷ d) k v = ground (arith, size-put d k v)

  pub length-values : (d : Dict V) → length (values d) ≡ size d
  unfolding values
  length-values [] = refl
  length-values ((j, v) ∷ d) = ap suc (length-values d)

  -- A `range` loop that looks for an entry: its test on the key and the value.
  unfoldable pub any_entry : (Text → V → Bool) → Dict V → Bool
  any_entry p [] = false
  any_entry p ((j, v) ∷ d) = p j v || any_entry p d

  -- What such a loop does not find is not in the map.
  pub any_entry-false :
      (p : Text → V → Bool) (d : Dict V) (k : Text) (v : V)
      → any_entry p d ≡ false
      → get d k ≡ some v
      → p k v ≡ false
  unfolding any_entry get
  any_entry-false p [] k v h e = cc
  any_entry-false p ((j, w) ∷ d) k v h e = elim (Bool-cases (j == k)) [
    | inl q ↦ rw (← (eq_iff j k).0 q) (ground arith)
    | inr q ↦ any_entry-false p d k v (ground arith) (ground arith)
  ]

  -- A value of a map with distinct keys stands under some key.
  pub values-get :
      (p : V → Bool) (d : Dict V)
      → IsDistinct d
      → any p (values d) ≡ true
      → (k : Text) × (v : V) × (get d k ≡ some v) × (p v ≡ true)
  unfolding values get any
  values-get p [] h e = cc
  values-get p ((j, w) ∷ d) h e = elim (Bool-cases (p w)) [
    | inl q ↦ (j, w, rw (eq_refl j), q)
    | inr q ↦
        let (k, v, at, pv) = values-get p d h.1 (ground arith) in
        (k, v, ground (arith, eq_iff j k), pv)
  ]
