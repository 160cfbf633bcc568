-- ===== src/ClientUi/Ordered.antt =====
-- The order of the lists that the client writes.
use pspxy.Base.{
  ◌≡◌, ◌≢◌, sym, ltb, ◌+◌, ◌<◌, ℤ, eqb_ℤ, pos_part, neg_part, Bool, false, List, [], ◌∷◌, map,
  values, Text, arith, ◌==◌, eq_iff, less_text, All, sort, IsSorted, sort-IsSorted, sort-Perm,
  Pairs, ◌⊎◌, inl, inr, Bool-cases,
}
use mathlib.Core.List.{Perm}
use pspxy.ClientTunnel.Order.{
  less_port_id, less_port_id-asym, less_port_id-chain, less_text_id, less_text_id-asym,
  less_text_id-chain,
}
use pspxy.ClientTunnel.Registry.{Instance}
use pspxy.ClientTunnel.Registry.Restore.{eqb_ℤ-path}
use pspxy.ClientTunnel.Registry.Views.{persisted_configs, less_config}
use pspxy.ClientTunnel.Reverse.Manager.{ProviderInst, ConsumerInst}
use pspxy.ClientTunnel.Reverse.Manager.Views.{
  less_provider, less_consumer, persisted_providers, persisted_consumers,
}
use pspxy.ClientUi.{Client, persisted}

-- The first text is not after the second one in the order of the dictionary, by bytes.
abbrev IsAtMost : Text → Text → Type 0
IsAtMost [] t = Unit
IsAtMost (c ∷ s) [] = ⊥
IsAtMost (c ∷ s) (d ∷ t) = (c < d) ⊎ ((c ≡ d) × IsAtMost s t)

-- By the ports, and by the ids where they are equal.
abbrev ByPort : ℤ → Text → ℤ → Text → Type 0
ByPort p i q j = (pos_part p + neg_part q < pos_part q + neg_part p) ⊎ ((p ≡ q) × IsAtMost i j)

-- By the listening addresses, and by the ids where they are equal.
abbrev ByListen : Text → Text → Text → Text → Type 0
ByListen s i t j = ((s ≢ t) × IsAtMost s t) ⊎ ((s ≡ t) × IsAtMost i j)

at_most : (s t : Text) → less_text t s ≡ false → IsAtMost s t
unfolding less_text
at_most [] t h = tt
at_most (c ∷ s) [] h = absurd (ground arith)
at_most (c ∷ s) (d ∷ t) h = elim (Bool-cases (ltb c d)) [
  | inl e ↦ inl (ground arith)
  | inr e ↦ inr (ground arith, at_most s t (ground arith))
]

by_port : (p q : ℤ) (i j : Text) → less_port_id q j p i ≡ false → ByPort p i q j
unfolding less_port_id
by_port p q i j h = elim (Bool-cases (eqb_ℤ q p)) [
  | inl e ↦ inr (sym (eqb_ℤ-path q p e), at_most i j (ground arith))
  | inr e ↦ inl (ground arith)
]

by_listen : (s t i j : Text) → less_text_id t j s i ≡ false → ByListen s i t j
unfolding less_text_id
by_listen s t i j h = elim (Bool-cases (t == s)) [
  | inl e ↦ inr (sym ((eq_iff t s).0 e), at_most i j (ground arith))
  | inr e ↦ inl ((λ q. ground (arith, (eq_iff t s).1 (sym q))), at_most s t (ground arith))
]

pairs :
    {A : Type 0} (less : A → A → Bool) (r : A → A → Type 0)
    → ((a b : A) → less b a ≡ false → r a b)
    → (xs : List A) → IsSorted less xs
    → Pairs r xs
pairs less r f [] s = tt
pairs {A} less r f (x ∷ xs) s = (all_of xs s.0, pairs less r f xs s.1)
  where
    all_of : (ys : List A) → All (λ y. less y x ≡ false) ys → All (r x) ys
    all_of [] a = tt
    all_of (y ∷ ys) a = (f x y a.0, all_of ys a.1)

-- The three lists that are written hold the configuration of every entry, as often as it occurs.
-- The tunnels and the providers are in ascending order of the ports, and of the ids where these are
-- equal, the consumers in the order of the listening addresses and the ids; texts by bytes, as in a
-- dictionary.
persisted-Ordered :
    (c : Client)
    → let (ps, (rp, rc)) = persisted c in
      (Pairs (λ a b. ByPort a.local_port a.id b.local_port b.id) ps
        × Pairs (λ a b. ByPort a.local_port a.id b.local_port b.id) rp
        × Pairs (λ a b. ByListen a.listen a.id b.listen b.id) rc)
      × Perm ps (map (λ (it : Instance). it.cfg) (values c.reg.items))
      × Perm rp (map (λ (it : ProviderInst). it.cfg) (values c.rev.providers))
      × Perm rc (map (λ (it : ConsumerInst). it.cfg) (values c.rev.consumers))
unfolding persisted_configs persisted_providers persisted_consumers
persisted-Ordered c =
    let ps = map (λ (it : Instance). it.cfg) (values c.reg.items) in
    let rp = map (λ (it : ProviderInst). it.cfg) (values c.rev.providers) in
    let rc = map (λ (it : ConsumerInst). it.cfg) (values c.rev.consumers) in
    (
      (
        pairs less_config _ (λ a b. by_port a.local_port b.local_port a.id b.id)
            (sort less_config ps)
            (sort-IsSorted less_config
              (λ a b. less_port_id-asym a.local_port b.local_port a.id b.id)
              (λ a b d. less_port_id-chain a.local_port b.local_port d.local_port a.id b.id d.id)
              ps),
        pairs less_provider _ (λ a b. by_port a.local_port b.local_port a.id b.id)
            (sort less_provider rp)
            (sort-IsSorted less_provider
              (λ a b. less_port_id-asym a.local_port b.local_port a.id b.id)
              (λ a b d. less_port_id-chain a.local_port b.local_port d.local_port a.id b.id d.id)
              rp),
        pairs less_consumer _ (λ a b. by_listen a.listen b.listen a.id b.id) (sort less_consumer rc)
            (sort-IsSorted less_consumer (λ a b. less_text_id-asym a.listen b.listen a.id b.id)
              (λ a b d. less_text_id-chain a.listen b.listen d.listen a.id b.id d.id) rc),
      ),
      sort-Perm less_config ps,
      sort-Perm less_provider rp,
      sort-Perm less_consumer rc,
    )
