-- ===== src/Config/Manager/Poison.antt =====
-- What a proxy whose address does not resolve does to the later edits.
use pspxy.Base.{
  ◌≡◌, ◌≢◌, refl, sym, ap, ◌∙◌, Bool, true, false, List, [], ◌∷◌, ◌++◌, Option, none, some, arith,
  all, is_some, Text, ◌==◌, eq_iff, ◌⊎◌, inl, inr, All,
}
use pspxy.Config.{ProxyConfig}
use pspxy.Config.Manager.{
  Yaml, Env, Manager, Outcome, replace_first, remove_first, add_proxy, update_proxy, remove_proxy,
  save_found, save_edited,
}
use pspxy.Config.Manager.Save.{save-succeeds_iff, resolves_all}
use pspxy.Config.Manager.Edit.{proxies-save_edited}

-- The calls that edit the list.
pub data Edit : Type 0 where
  adds : ProxyConfig → Edit
  updates : Text → ProxyConfig → Edit
  removes : Text → Edit

unfoldable pub edit : Yaml → Env → Edit → Manager → Outcome × Manager
edit y env (adds p) m = add_proxy y env p m
edit y env (updates id p) m = update_proxy y env id p m
edit y env (removes id) m = remove_proxy y env id m

-- The edits one after the other, each with the system's answers during it.
unfoldable pub outcomes : Yaml → List (Env × Edit) → Manager → List Outcome
unfolding edit
outcomes y [] m = []
outcomes y ((env, e) ∷ es) m = let r = edit y env e m in r.0 ∷ outcomes y es r.1

-- The edit leaves the entries of the id alone, and the address does not resolve during it.
abbrev pub Leaves : ProxyConfig → Env × Edit → Type 0
Leaves p (env, adds q) = env.resolves p.remote_address ≡ false
Leaves p (env, updates id q) = (p.id ≢ id) × (env.resolves p.remote_address ≡ false)
Leaves p (env, removes id) = (p.id ≢ id) × (env.resolves p.remote_address ≡ false)

-- The entry stands in the list.
Holds : ProxyConfig → List ProxyConfig → Type 0
Holds p [] = ⊥
Holds p (q ∷ qs) = (q ≡ p) ⊎ Holds p qs

-- The list, if there is one, has the entry.
HoldsIf : ProxyConfig → Option (List ProxyConfig) → Type 0
unfolding Holds
HoldsIf p none = Unit
HoldsIf p (some qs) = Holds p qs

Holds-append : (p q : ProxyConfig) (ps : List ProxyConfig) → Holds p ps → Holds p (ps ++ q ∷ [])
unfolding Holds
Holds-append p q [] h = absurd h
Holds-append p q (r ∷ ps) (inl e) = inl e
Holds-append p q (r ∷ ps) (inr h) = inr (Holds-append p q ps h)

Holds-last : (p : ProxyConfig) (ps : List ProxyConfig) → Holds p (ps ++ p ∷ [])
unfolding Holds
Holds-last p [] = inl refl
Holds-last p (r ∷ ps) = inr (Holds-last p ps)

module _ (p : ProxyConfig) (id : Text) (n : p.id ≢ id) where
  -- The loops do not touch an entry of another id.
  replace_first-Holds :
      (q : ProxyConfig) (ps : List ProxyConfig) → Holds p ps → HoldsIf p (replace_first id q ps)
  unfolding replace_first Holds HoldsIf
  replace_first-Holds q [] h = absurd h
  replace_first-Holds q (x ∷ ps) h =
      go (x.id == id) refl (replace_first id q ps) (λ k. replace_first-Holds q ps k)
    where
      go :
          (b : Bool)
          → (x.id == id) ≡ b
          → (o : Option (List ProxyConfig)) → (Holds p ps → HoldsIf p o)
          → HoldsIf p (elim b [
            | true ↦ some (record q { id = id } ∷ ps)
            | false ↦ elim o [ none ↦ none | some rest ↦ some (x ∷ rest) ]
          ])
      go true e o k = elim h [
        | inl same ↦ absurd (n (sym (ap (λ (c : ProxyConfig). c.id) same) ∙ (eq_iff x.id id).0 e))
        | inr later ↦ inr later
      ]
      go false e none k = tt
      go false e (some rest) k = elim h [ inl same ↦ inl same | inr later ↦ inr (k later) ]

  remove_first-Holds : (ps : List ProxyConfig) → Holds p ps → HoldsIf p (remove_first id ps)
  unfolding remove_first Holds HoldsIf
  remove_first-Holds [] h = absurd h
  remove_first-Holds (x ∷ ps) h =
      go (x.id == id) refl (remove_first id ps) (λ k. remove_first-Holds ps k)
    where
      go :
          (b : Bool)
          → (x.id == id) ≡ b
          → (o : Option (List ProxyConfig)) → (Holds p ps → HoldsIf p o)
          → HoldsIf p (elim b [
            | true ↦ some ps
            | false ↦ elim o [ none ↦ none | some rest ↦ some (x ∷ rest) ]
          ])
      go true e o k = elim h [
        | inl same ↦ absurd (n (sym (ap (λ (c : ProxyConfig). c.id) same) ∙ (eq_iff x.id id).0 e))
        | inr later ↦ later
      ]
      go false e none k = tt
      go false e (some rest) k = elim h [ inl same ↦ inl same | inr later ↦ inr (k later) ]

Holds-all :
    (p : ProxyConfig) (ps : List ProxyConfig) (r : Text → Bool)
    → r p.remote_address ≡ false
    → Holds p ps
    → all (λ q. r q.remote_address) ps ≡ false
unfolding Holds all
Holds-all p [] r u h = absurd h
Holds-all p (q ∷ ps) r u (inl e) = rw e (rw u refl)
Holds-all p (q ∷ ps) r u (inr h) = ground (arith, Holds-all p ps r u h)

-- It is refused, and the entry is in the list afterwards.
abbrev Stuck : ProxyConfig → Outcome × Manager → Type 0
Stuck p r = (is_some r.0 ≡ true) × Holds p r.1.config.proxies

module _ (y : Yaml) (env : Env) (p : ProxyConfig) (u : env.resolves p.remote_address ≡ false) where
  save_edited-Stuck :
      (ps : List ProxyConfig) (m : Manager) → Holds p ps → Stuck p (save_edited y env ps m)
  save_edited-Stuck ps m h = (
    unfold save_edited resolves_all in
        rw (save-succeeds_iff y env _ _) (rw (Holds-all p ps env.resolves u h)),
    rw (proxies-save_edited y env ps m) h,
  )

  save_found-Stuck :
      (id : Text) (m : Manager) (o : Option (List ProxyConfig))
      → HoldsIf p o
      → Holds p m.config.proxies
      → Stuck p (save_found y env id m o)
  unfolding save_found HoldsIf
  save_found-Stuck id m none k h = (refl, h)
  save_found-Stuck id m (some ps) k h = save_edited-Stuck ps m k

edit-Stuck :
    (y : Yaml) (env : Env) (p : ProxyConfig) (e : Edit) (m : Manager)
    → Leaves p (env, e)
    → Holds p m.config.proxies
    → Stuck p (edit y env e m)
unfolding edit add_proxy update_proxy remove_proxy
edit-Stuck y env p (adds q) m l h =
    save_edited-Stuck y env p l (m.config.proxies ++ q ∷ []) m (Holds-append p q m.config.proxies h)
edit-Stuck y env p (updates id q) m (n, l) h =
    save_found-Stuck y env p l id m (replace_first id q m.config.proxies)
      (replace_first-Holds p id n q m.config.proxies h) h
edit-Stuck y env p (removes id) m (n, l) h =
    save_found-Stuck y env p l id m (remove_first id m.config.proxies)
      (remove_first-Holds p id n m.config.proxies h) h

outcomes-refused :
    (y : Yaml) (p : ProxyConfig) (es : List (Env × Edit)) (m : Manager)
    → All (Leaves p) es
    → Holds p m.config.proxies
    → All (λ o. is_some o ≡ true) (outcomes y es m)
unfolding outcomes
outcomes-refused y p [] m l h = tt
outcomes-refused y p ((env, e) ∷ es) m l h =
    let (r, h') = edit-Stuck y env p e m l.0 h in
    (r, outcomes-refused y p es (edit y env e m).1 l.1 h')

-- `AddProxy` refuses a proxy whose address does not resolve; and from then on every `AddProxy`,
-- whatever its own address, and every `UpdateProxy` and `RemoveProxy` of other ids is refused, any
-- number of them in any order, as long as that address does not resolve and nothing else is called.
pub add_proxy_poisons :
    (y : Yaml) (env : Env) (p : ProxyConfig) (m : Manager) (es : List (Env × Edit))
    → env.resolves p.remote_address ≡ false
    → All (Leaves p) es
    → (is_some (add_proxy y env p m).0 ≡ true)
      × All (λ o. is_some o ≡ true) (outcomes y es (add_proxy y env p m).1)
unfolding add_proxy
add_proxy_poisons y env p m es u l =
    let (r, h) =
      save_edited-Stuck y env p u (m.config.proxies ++ p ∷ []) m (Holds-last p m.config.proxies) in
    (r, outcomes-refused y p es (save_edited y env (m.config.proxies ++ p ∷ []) m).1 l h)
