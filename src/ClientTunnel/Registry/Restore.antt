-- ===== src/ClientTunnel/Registry/Restore.antt =====
-- The start from the configuration brings back what can run.
use pspxy.Base.{
  ◌≡◌, ◌≢◌, refl, sym, subst, ap, ◌∙◌, ℤ, pos, negsuc, ltb_ℤ, eqb_ℤ, Bool, true, false, not, ◌&&◌,
  List, [], ◌∷◌, none, some, Text, arith, ◌==◌, eq_iff, Dict, get, put, any_entry, get-put,
  get-put_self, All, Bool-cases, inl, inr,
}
use pspxy.ClientTunnel.Tunnel.{Config, validate, new_tunnel, start as tunnel_start}
use pspxy.ClientTunnel.Registry.{
  Instance, Registry, new_registry, local_port_busy, instance_of, put_started, start_valid,
  effective, start,
}
use pspxy.ClientTunnel.Registry.Views.{boot_valid, bootstrap_from_configs}

-- Normalised and valid entries whose ids and ports all differ.
abbrev pub IsRestorable : List Config → Type 0
IsRestorable [] = Unit
IsRestorable (c ∷ cs) =
    (effective c ≡ c)
    × (validate c ≡ none)
    × All (λ d. (c.id ≢ d.id) × (c.local_port ≢ d.local_port)) cs
    × IsRestorable cs

-- The tunnel of an entry listens, with that entry.
abbrev pub Runs : Registry → Config → Type 0
Runs r c = (it : Instance) × (get r.items c.id ≡ some it) × (it.cfg ≡ c) × (it.tun.listening ≡ true)

-- The id and the port of an entry are free.
abbrev Free : Registry → Config → Type 0
Free r c = (get r.items c.id ≡ none) × (local_port_busy c.local_port c.id r ≡ false)

any_entry-put {ℓ} :
    {V : Type ℓ} (p : Text → V → Bool) (d : Dict V) (k : Text) (v : V)
    → any_entry p d ≡ false
    → p k v ≡ false
    → any_entry p (put d k v) ≡ false
unfolding any_entry put
any_entry-put p [] k v h f = ground arith
any_entry-put p ((j, w) ∷ d) k v h f = elim (Bool-cases (j == k)) [
  | inl e ↦ rw e (ground arith)
  | inr e ↦ rw e (ground (arith, any_entry-put p d k v))
]

pub eqb_ℤ-path : (a b : ℤ) → eqb_ℤ a b ≡ true → a ≡ b
eqb_ℤ-path (pos a) (pos b) e = ap pos (ground arith)
eqb_ℤ-path (pos a) (negsuc b) e = absurd (ground arith)
eqb_ℤ-path (negsuc a) (pos b) e = absurd (ground arith)
eqb_ℤ-path (negsuc a) (negsuc b) e = ap negsuc (ground arith)

ports_differ : (a b : ℤ) → a ≢ b → eqb_ℤ a b ≡ false
ports_differ a b n = elim (Bool-cases (eqb_ℤ a b)) [
  | inl e ↦ absurd (n (eqb_ℤ-path a b e))
  | inr e ↦ e
]

-- The instance that a successful start stores.
abbrev started : Config → Instance
started c = record { tun = record { listening = true; active_cfg = c; run_err = [] }; cfg = c }

tunnel_start-valid :
    (c : Config) → validate c ≡ none → tunnel_start none c new_tunnel ≡ (none, (started c).tun)
unfolding tunnel_start
tunnel_start-valid c h = rw h refl

start-started :
    (c : Config) (r : Registry)
    → effective c ≡ c
    → validate c ≡ none
    → Free r c
    → (start none c r).1 ≡ record { items = put r.items c.id (started c) }
unfolding start start_valid put_started instance_of
start-started c r e h f = rw (e, h, f.1, f.0) (rw (tunnel_start-valid c h) refl)

-- Another entry's id and port stay free.
Free-put :
    (r : Registry) (c d : Config)
    → (c.id ≢ d.id) × (c.local_port ≢ d.local_port)
    → Free r d
    → Free (record { items = put r.items c.id (started c) }) d
unfolding local_port_busy
Free-put r c d n f = (
  ground (arith, get-put r.items c.id d.id (started c), eq_iff c.id d.id, n.0, f.0),
  elim (Bool-cases (ltb_ℤ d.local_port (pos 1))) [
    | inl e ↦ rw e refl
    | inr e ↦
        let other = ports_differ c.local_port d.local_port n.1 in
        rw e (
          any_entry-put (λ id it. not (id == d.id) && eqb_ℤ it.cfg.local_port d.local_port) r.items
            c.id (started c) (ground (arith, f.1, e)) (rw other (ground arith)))
  ],
)

Free-put-All :
    (r : Registry) (c : Config) (cs : List Config)
    → All (λ d. (c.id ≢ d.id) × (c.local_port ≢ d.local_port)) cs
    → All (Free r) cs
    → All (Free (record { items = put r.items c.id (started c) })) cs
Free-put-All r c [] n f = tt
Free-put-All r c (d ∷ cs) n f = (Free-put r c d n.0 f.0, Free-put-All r c cs n.1 f.1)

-- One round of the loop.
bootstrap_round :
    (c : Config) (cs : List Config) (r : Registry)
    → effective c ≡ c
    → validate c ≡ none
    → Free r c
    → bootstrap_from_configs (λ c. none) (c ∷ cs) r
      ≡ bootstrap_from_configs (λ c. none) cs (record { items = put r.items c.id (started c) })
unfolding bootstrap_from_configs boot_valid
bootstrap_round c cs r e v f = rw (e, v, start-started c r e v f) refl

-- What runs under an id that the list does not have stays.
bootstrap-keeps :
    (cs : List Config) (r : Registry) (id : Text)
    → IsRestorable cs
    → All (Free r) cs
    → All (λ d. id ≢ d.id) cs
    → get (bootstrap_from_configs (λ c. none) cs r).items id ≡ get r.items id
bootstrap-keeps [] r id s f n = unfold bootstrap_from_configs in refl
bootstrap-keeps (c ∷ cs) r id (e, v, apart, s) f n =
    let r' : Registry = record { items = put r.items c.id (started c) } in
    rw (bootstrap_round c cs r e v f.0) (
      bootstrap-keeps cs r' id s (Free-put-All r c cs apart f.1) n.1
      ∙ ground (arith, get-put r.items c.id id (started c), eq_iff c.id id, n.0))

ids_differ :
    (c : Config) (cs : List Config)
    → All (λ d. (c.id ≢ d.id) × (c.local_port ≢ d.local_port)) cs
    → All (λ d. c.id ≢ d.id) cs
ids_differ c [] n = tt
ids_differ c (d ∷ cs) n = (n.0.0, ids_differ c cs n.1)

bootstrap-Runs :
    (cs : List Config) (r : Registry)
    → IsRestorable cs
    → All (Free r) cs
    → All (Runs (bootstrap_from_configs (λ c. none) cs r)) cs
bootstrap-Runs [] r s f = tt
bootstrap-Runs (c ∷ cs) r (e, v, apart, s) f =
    let r' : Registry = record { items = put r.items c.id (started c) } in
    let f' = Free-put-All r c cs apart f.1 in
    subst (λ x. All (Runs x) (c ∷ cs)) (sym (bootstrap_round c cs r e v f.0))
      (
        (
          started c,
          bootstrap-keeps cs r' c.id s f' (ids_differ c cs apart)
              ∙ get-put_self r.items c.id (started c),
          refl,
          refl,
        ),
        bootstrap-Runs cs r' s f',
      )

Free-new : (cs : List Config) → All (Free new_registry) cs
unfolding get local_port_busy any_entry
Free-new [] = tt
Free-new (c ∷ cs) = ((refl, ground arith), Free-new cs)

-- Where the entries of the configuration are normalised and valid, their ids and their ports all
-- differ, and every port can be listened on, each of them runs after the start of the program.
pub bootstrap_from_configs-Runs :
    (cs : List Config)
    → IsRestorable cs
    → All (Runs (bootstrap_from_configs (λ c. none) cs new_registry)) cs
bootstrap_from_configs-Runs cs s = bootstrap-Runs cs new_registry s (Free-new cs)
