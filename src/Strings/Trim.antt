-- ===== src/Strings/Trim.antt =====
-- Laws of `trim_space`.
use pspxy.Base.{
  ◌≡◌, refl, subst, All, append-nil, ◌++◌, ℕ, zero, suc, false, ◌&&◌, [], ◌∷◌, Text, drop, arith,
  is_space, Bool-cases, inl, inr,
}
use pspxy.Strings.{trim_left, trim_right, trim_space, is_empty}

-- The text does not begin with a space.
abbrev pub StartsBare : Text → Type 0
StartsBare [] = Unit
StartsBare (c ∷ s) = is_space c ≡ false

trim_left-StartsBare : (s : Text) → StartsBare (trim_left s)
unfolding trim_left
trim_left-StartsBare [] = tt
trim_left-StartsBare (c ∷ s) = elim (Bool-cases (is_space c)) [
  | inl e ↦ rw e (trim_left-StartsBare s)
  | inr e ↦ rw e e
]

trim_left-bare : (s : Text) → StartsBare s → trim_left s ≡ s
unfolding trim_left
trim_left-bare [] h = refl
trim_left-bare (c ∷ s) h = rw h

trim_right-StartsBare : (s : Text) → StartsBare s → StartsBare (trim_right s)
unfolding trim_right
trim_right-StartsBare [] h = tt
trim_right-StartsBare (c ∷ s) h = elim (Bool-cases (is_empty (trim_right s))) [
  | inl e ↦ rw (e, h) h
  | inr e ↦ rw e h
]

trim_right_idem : (s : Text) → trim_right (trim_right s) ≡ trim_right s
unfolding trim_right
trim_right_idem [] = refl
trim_right_idem (c ∷ s) = elim (Bool-cases (is_empty (trim_right s) && is_space c)) [
  | inl e ↦ rw e
  | inr e ↦ rw e (rw (trim_right_idem s) (rw e))
]

-- Trimming twice is trimming once.
pub trim_space_idem : (s : Text) → trim_space (trim_space s) ≡ trim_space s
unfolding trim_space
trim_space_idem s =
    let bare = trim_right-StartsBare (trim_left s) (trim_left-StartsBare s) in
    rw (trim_left-bare (trim_right (trim_left s)) bare) (trim_right_idem (trim_left s))

pub trim_space-nil : trim_space [] ≡ []
unfolding trim_space
trim_space-nil = refl

trim_right-tail : (c : ℕ) (s : Text) → trim_right (c ∷ s) ≡ c ∷ s → trim_right s ≡ s
unfolding trim_right
trim_right-tail c s h = ground arith

pub trim_right-drop : (n : ℕ) (s : Text) → trim_right s ≡ s → trim_right (drop n s) ≡ drop n s
trim_right-drop zero s h = h
trim_right-drop (suc n) [] h = h
trim_right-drop (suc n) (c ∷ s) h = trim_right-drop n s (trim_right-tail c s h)

-- A trimmed text does not end with a space.
pub trim_space-trim_right : (s : Text) → trim_space s ≡ s → trim_right s ≡ s
unfolding trim_space
trim_space-trim_right s h = subst (λ t. trim_right t ≡ t) h (trim_right_idem (trim_left s))

abbrev pub Bare : Text → Type 0
Bare = All (λ c. is_space c ≡ false)

-- Characters in front that are no spaces stay.
trim_right-append : (p s : Text) → Bare p → trim_right s ≡ s → trim_right (p ++ s) ≡ p ++ s
unfolding trim_right
trim_right-append [] s b h = h
trim_right-append (c ∷ p) s b h = rw (trim_right-append p s b.1 h) (ground (arith, b.0))

pub trim_space-append :
    (c : ℕ) (p s : Text) → Bare (c ∷ p) → trim_right s ≡ s → trim_space (c ∷ p ++ s) ≡ c ∷ p ++ s
unfolding trim_space
trim_space-append c p s b h = rw (trim_left-bare (c ∷ p ++ s) b.0) (trim_right-append (c ∷ p) s b h)

pub trim_space-Bare : (s : Text) → Bare s → trim_space s ≡ s
unfolding trim_space trim_right
trim_space-Bare [] b = unfold trim_left in refl
trim_space-Bare (c ∷ s) b =
    let h = trim_space-append c s [] b refl in
    subst (λ t. trim_space (c ∷ t) ≡ c ∷ t) (append-nil s) h
