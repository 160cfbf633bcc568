-- ===== src/ClientTunnel/Order.antt =====
-- internal/clienttunnel: the order of the lists that are shown and written, by the port and the id,
-- and by the listening address and the id.
use pspxy.Base.{
  ◌≡◌, subst, sym, ◌∙◌, ℤ, ltb_ℤ, eqb_ℤ, Bool, true, false, not, if◌then◌else◌, Text, arith, ◌==◌,
  eq_iff, less_text, less_text-asym, less_text-chain, less_text-total, Bool-cases, inl, inr,
}

-- Where the ports are equal the ids decide.
unfoldable pub less_port_id : ℤ → Text → ℤ → Text → Bool
less_port_id p i q j = if not (eqb_ℤ p q) then ltb_ℤ p q else less_text i j

unfoldable pub less_text_id : Text → Text → Text → Text → Bool
less_text_id s i t j = if not (s == t) then less_text s t else less_text i j

pub less_port_id-asym :
    (p q : ℤ) (i j : Text) → less_port_id p i q j ≡ true → less_port_id q j p i ≡ false
unfolding less_port_id
less_port_id-asym p q i j h = ground (arith, less_text-asym i j)

pub less_port_id-chain :
    (p q r : ℤ) (i j k : Text)
    → less_port_id q j p i ≡ false
    → less_port_id r k q j ≡ false
    → less_port_id r k p i ≡ false
unfolding less_port_id
less_port_id-chain p q r i j k h g = ground (arith, less_text-chain i j k)

pub less_text_id-asym :
    (s t i j : Text) → less_text_id s i t j ≡ true → less_text_id t j s i ≡ false
unfolding less_text_id
less_text_id-asym s t i j h =
    ground (arith, less_text-asym s t, less_text-asym i j, eq_iff s t, eq_iff t s)

less_text_irrefl : (s : Text) → less_text s s ≡ false
less_text_irrefl s = elim (Bool-cases (less_text s s)) [ inl e ↦ less_text-asym s s e | inr e ↦ e ]

first_not_less : (s t i j : Text) → less_text_id s i t j ≡ false → less_text s t ≡ false
unfolding less_text_id
first_not_less s t i j h = elim (Bool-cases (s == t)) [
  | inl e ↦ rw ((eq_iff s t).0 e) (less_text_irrefl t)
  | inr e ↦ ground arith
]

second_not_less : (s t i j : Text) → s ≡ t → less_text_id s i t j ≡ false → less_text i j ≡ false
unfolding less_text_id
second_not_less s t i j e h = ground (arith, (eq_iff s t).1 e)

pub less_text_id-chain :
    (s t r i j k : Text)
    → less_text_id t j s i ≡ false
    → less_text_id r k t j ≡ false
    → less_text_id r k s i ≡ false
less_text_id-chain s t r i j k h g =
    let ts = first_not_less t s j i h in
    let rt = first_not_less r t k j g in
    elim (Bool-cases (r == s)) [
      | inl e ↦
          let rs : r ≡ s = (eq_iff r s).0 e in
          let st : s ≡ t = less_text-total s t (subst (λ x. less_text x t ≡ false) rs rt) ts in
          let ids =
            less_text-chain i j k (second_not_less t s j i (sym st) h)
              (second_not_less r t k j (rs ∙ st) g) in
          unfold less_text_id in rw e ids
      | inr e ↦ (let texts = less_text-chain s t r ts rt in unfold less_text_id in rw e texts)
    ]
