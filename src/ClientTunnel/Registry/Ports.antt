-- ===== src/ClientTunnel/Registry/Ports.antt =====
-- What each call does to the ports.
use pspxy.Base.{
  ◌≡◌, ◌≢◌, ◌⊎◌, refl, ap, sym, ◌∙◌, subst, ℤ, pos, ltb_ℤ, eqb_ℤ, Bool, true, false, not, ◌&&◌, [],
  ◌∷◌, Option, none, some, Text, arith, ◌==◌, eq_iff, Dict, get, put, any_entry, any_entry-false,
  get-put, get-remove, Bool-cases, inl, inr,
}
use pspxy.Strings.{trim_space, is_empty}
use pspxy.ClientTunnel.Tunnel.{
  Config, zero_config, Error, Tunnel, start as tunnel_start, stop_unsafe_locked,
}
use pspxy.ClientTunnel.Registry.{
  Instance, Registry, local_port_busy, instance_of, put_started, start_valid, stop_found,
  stopped_items, stop_all, remove_id,
}

abbrev pub NoPort : Config → Type 0
NoPort c = ltb_ℤ c.local_port (pos 1) ≡ true

-- Two entries under different ids that have the same port have no port at all.
abbrev pub HasOwnPorts : Registry → Type 0
HasOwnPorts r =
    (i j : Text) (a b : Instance)
    → get r.items i ≡ some a
    → get r.items j ≡ some b
    → i ≢ j
    → a.cfg.local_port ≡ b.cfg.local_port
    → NoPort a.cfg

abbrev port : Instance → ℤ
port it = it.cfg.local_port

found-put :
    (d : Dict Instance) (id i : Text) (it a : Instance)
    → get (put d id it) i ≡ some a
    → ((id ≡ i) × (it ≡ a)) ⊎ ((id ≢ i) × (get d i ≡ some a))
found-put d id i it a p = elim (Bool-cases (id == i)) [
  | inl x ↦ inl ((eq_iff id i).0 x, ground (arith, get-put d id i it))
  | inr x ↦ inr ((λ q. ground (arith, (eq_iff id i).1 q)), ground (arith, get-put d id i it))
]

same_port : (a b : Instance) → port a ≡ port b → NoPort b.cfg → NoPort a.cfg
same_port a b e n = rw e n

eqb_ℤ_refl : (a : ℤ) → eqb_ℤ a a ≡ true
eqb_ℤ_refl a = ground arith

eqb_ℤ-eq : (a b : ℤ) → a ≡ b → eqb_ℤ b a ≡ true
eqb_ℤ-eq a b e = subst (λ x. eqb_ℤ x a ≡ true) e (eqb_ℤ_refl a)

true≢false : ◌≡◌ {A = Bool} true false → ⊥
true≢false e = cc

module _ (r : Registry) (v : HasOwnPorts r) where
  put-HasOwnPorts :
      (id : Text) (it : Instance)
      → ((j : Text) (b : Instance)
          → get r.items j ≡ some b
          → id ≢ j
          → port it ≡ port b
          → NoPort it.cfg)
      → HasOwnPorts (record { items = put r.items id it })
  put-HasOwnPorts id it h i j a b p q n e = elim (found-put r.items id i it a p) [
    | inl (x, s) ↦ elim (found-put r.items id j it b q) [
      | inl (y, t) ↦ absurd (n (sym x ∙ y))
      | inr (y, q') ↦ same_port a it (ap port (sym s)) (h j b q' y (ap port s ∙ e))
    ]
    | inr (x, p') ↦ elim (found-put r.items id j it b q) [
      | inl (y, t) ↦
          let e' : port a ≡ port it = e ∙ ap port (sym t) in same_port a it e' (h i a p' x (sym e'))
      | inr (y, q') ↦ v i j a b p' q' n e
    ]
  ]

  -- An entry that keeps its configuration.
  keep-HasOwnPorts :
      (id : Text) (o : Option Instance) (t : Tunnel)
      → get r.items id ≡ o
      → HasOwnPorts
          (record { items = put r.items id (let it = instance_of o in record it { tun = t }) })
  unfolding instance_of
  keep-HasOwnPorts id none t g =
      put-HasOwnPorts id (record { tun = t; cfg = zero_config }) (λ j b q n e. refl)
  keep-HasOwnPorts id (some it) t g =
      put-HasOwnPorts id (record it { tun = t }) (λ j b q n e. v id j it b g q n e)

  -- A port that is not busy is no other entry's.
  taken :
      (c : Config) (j : Text) (b : Instance)
      → get r.items j ≡ some b
      → c.id ≢ j
      → c.local_port ≡ b.cfg.local_port
      → any_entry (λ id it. not (id == c.id) && eqb_ℤ it.cfg.local_port c.local_port) r.items
        ≡ false
      → ⊥
  taken c j b q n e f =
      let g =
        any_entry-false (λ id it. not (id == c.id) && eqb_ℤ it.cfg.local_port c.local_port) r.items
          j b f q in
      elim (Bool-cases (j == c.id)) [
        | inl y ↦ n (sym ((eq_iff j c.id).0 y))
        | inr y ↦
            (let w = eqb_ℤ-eq c.local_port b.cfg.local_port e in
              let g' : eqb_ℤ b.cfg.local_port c.local_port ≡ false = ground (arith, g) in
              true≢false (sym w ∙ g'))
      ]

  free_port :
      (c : Config) (t : Tunnel)
      → local_port_busy c.local_port c.id r ≡ false
      → HasOwnPorts (record { items = put r.items c.id (record { tun = t; cfg = c }) })
  unfolding local_port_busy
  free_port c t f =
      put-HasOwnPorts c.id (record { tun = t; cfg = c })
        (λ j b q n e. elim (Bool-cases (ltb_ℤ c.local_port (pos 1))) [
          | inl low ↦ low
          | inr high ↦ absurd (taken c j b q n e (ground arith))
        ])

  put_started-HasOwnPorts :
      (c : Config) (t : Option Error × Tunnel)
      → local_port_busy c.local_port c.id r ≡ false
      → HasOwnPorts (put_started c (instance_of (get r.items c.id)) r t).1
  unfolding put_started
  put_started-HasOwnPorts c (some e, t) f = keep-HasOwnPorts c.id (get r.items c.id) t refl
  put_started-HasOwnPorts c (none, t) f = free_port c t f

  pub start_valid-HasOwnPorts :
      (listen : Option Text) (c : Config) (o : Option Error)
      → HasOwnPorts (start_valid listen c r o).1
  unfolding start_valid
  start_valid-HasOwnPorts listen c (some e) = v
  start_valid-HasOwnPorts listen c none = elim (Bool-cases (local_port_busy c.local_port c.id r)) [
    | inl e ↦ rw e v
    | inr e ↦
        rw e
          (put_started-HasOwnPorts c (tunnel_start listen c (instance_of (get r.items c.id)).tun) e)
  ]

  pub stop_found-HasOwnPorts :
      (closed : Option Text) (id : Text) (o : Option Instance)
      → get r.items id ≡ o
      → HasOwnPorts (stop_found closed id r o).1
  unfolding stop_found
  stop_found-HasOwnPorts closed id none g = v
  stop_found-HasOwnPorts closed id (some it) g =
      unfold instance_of in keep-HasOwnPorts id (some it) (stop_unsafe_locked closed it.tun).1 g

  pub remove_id-HasOwnPorts : (id : Text) → HasOwnPorts (remove_id id r).1
  unfolding remove_id
  remove_id-HasOwnPorts id = elim (Bool-cases (is_empty (trim_space id))) [
    | inl e ↦ rw e v
    | inr e ↦ rw e (λ i j a b p q n d.
        v i j a b (ground (arith, get-remove r.items (trim_space id) i))
          (ground (arith, get-remove r.items (trim_space id) j)) n d)
  ]

-- Stopping keeps each configuration.
get-stopped_items :
    (d : Dict Instance) (i : Text) (a : Instance)
    → get (stopped_items d) i ≡ some a
    → (b : Instance) × (get d i ≡ some b) × (b.cfg ≡ a.cfg)
unfolding stopped_items get
get-stopped_items [] i a p = cc
get-stopped_items ((k, it) ∷ d) i a p = elim (Bool-cases (k == i)) [
  | inl e ↦ (it, rw e refl, ground arith)
  | inr e ↦ (let (b, at, same) = get-stopped_items d i a (ground arith) in (b, rw e at, same))
]

pub stop_all-HasOwnPorts : (r : Registry) → HasOwnPorts r → HasOwnPorts (stop_all r)
unfolding stop_all
stop_all-HasOwnPorts r v i j a b p q n e =
    let (a', pa, ea) = get-stopped_items r.items i a p in
    let (b', pb, eb) = get-stopped_items r.items j b q in
    let same : a'.cfg.local_port ≡ b'.cfg.local_port =
      ap (λ (c : Config). c.local_port) ea ∙ e ∙ ap (λ (c : Config). c.local_port) (sym eb) in
    rw (← ea) (v i j a' b' pa pb n same)
