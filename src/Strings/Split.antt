-- ===== src/Strings/Split.antt =====
-- Laws of `split`: no part holds the separator, and the parts joined by it give the text back.
use pspxy.Base.{ℕ, ◌≡◌, ◌≢◌, refl, List, [], ◌∷◌, ◌++◌, arith, Text, eqb, Bool-cases, inl, inr, All}
use pspxy.Strings.{split, push_head}

-- strings.Join
pub join : ℕ → List Text → Text
join sep [] = []
join sep (p ∷ []) = p
join sep (p ∷ q ∷ ps) = p ++ sep ∷ join sep (q ∷ ps)

abbrev pub Lacks : ℕ → Text → Type 0
Lacks sep = All (λ c. c ≢ sep)

-- Every part satisfies `Lacks sep`, and there is one.
abbrev IsParts : ℕ → List Text → Type 0
IsParts sep ps = (ps ≢ []) × All (Lacks sep) ps

push_head-IsParts :
    (sep c : ℕ) (ps : List Text) → c ≢ sep → IsParts sep ps → IsParts sep (push_head c ps)
unfolding push_head
push_head-IsParts sep c [] n h = absurd (h.0 refl)
push_head-IsParts sep c (p ∷ ps) n h = ((λ e. cc), ((n, h.1.0), h.1.1))

split-IsParts : (sep : ℕ) (s : Text) → IsParts sep (split sep s)
unfolding split
split-IsParts sep [] = ((λ e. cc), (tt, tt))
split-IsParts sep (c ∷ s) = elim (Bool-cases (eqb c sep)) [
  | inl e ↦ rw e ((λ q. cc), (tt, (split-IsParts sep s).1))
  | inr e ↦ rw e (push_head-IsParts sep c (split sep s) (ground arith) (split-IsParts sep s))
]

join-push_head :
    (sep c : ℕ) (ps : List Text) → ps ≢ [] → join sep (push_head c ps) ≡ c ∷ join sep ps
unfolding push_head join
join-push_head sep c [] h = absurd (h refl)
join-push_head sep c (p ∷ []) h = refl
join-push_head sep c (p ∷ q ∷ ps) h = refl

join-nil : (sep : ℕ) (ps : List Text) → ps ≢ [] → join sep ([] ∷ ps) ≡ sep ∷ join sep ps
unfolding join
join-nil sep [] h = absurd (h refl)
join-nil sep (p ∷ ps) h = refl

-- Joining the parts gives the text back.
pub join-split : (sep : ℕ) (s : Text) → join sep (split sep s) ≡ s
unfolding split
join-split sep [] = unfold join in refl
join-split sep (c ∷ s) =
    let ne = (split-IsParts sep s).0 in
    elim (Bool-cases (eqb c sep)) [
      | inl e ↦ rw (e, join-nil sep (split sep s) ne, join-split sep s) (ground arith)
      | inr e ↦ rw (e, join-push_head sep c (split sep s) ne, join-split sep s)
    ]

-- No part holds the separator.
pub split-Lacks : (sep : ℕ) (s : Text) → All (Lacks sep) (split sep s)
split-Lacks sep s = (split-IsParts sep s).1
