-- ===== src/Proxy/Manager/Refinement.antt =====
-- The proxy manager against its specification: a map from ids to configurations.
use pspxy.Base.{
  ℕ, ◌≡◌, refl, ap, sym, ◌∙◌, Bool, true, false, not, List, [], ◌∷◌, Option, none, some,
  if◌then◌else◌, Text, arith, ◌==◌, eq_iff, is_some, get, Bool-cases, inl, inr,
}
use pspxy.Config.{ProxyConfig}
use pspxy.Proxy.Server.{TcpServer}
use pspxy.Proxy.Manager.{
  Manager, new_manager, add_proxy, remove_proxy, update_proxy, start_all, stop_all,
}
use pspxy.Proxy.Manager.Sync.{view, view_of, as_view, last_proxy, view-sync_with_config}
use pspxy.Proxy.Manager.Views.{add_proxy-Shows, update_proxy-Shows, remove_proxy-view}
use pspxy.Proxy.Manager.Calls.{
  Call, add, remove_id, update, sync, start_listed, stop_everything, step, run,
}

-- The registered proxies by their ids.
abbrev pub Spec : Type 0
Spec = Text → Option ProxyConfig

unfoldable pub set : ProxyConfig → Spec → Spec
set pc s id = if pc.id == id then some pc else s id

-- Only a new id can be added.
unfoldable pub spec_add : ProxyConfig → Spec → Spec
unfolding set
spec_add pc s = if is_some (s pc.id) then s else set pc s

unfoldable pub spec_start : List ProxyConfig → Spec → Spec
unfolding spec_add
spec_start [] s = s
spec_start (pc ∷ pcs) s = spec_start pcs (spec_add pc s)

unfoldable pub spec_step : Spec → Call → Spec
unfolding spec_add spec_start set
spec_step s (add pc) = spec_add pc s
spec_step s (remove_id id) = λ j. if id == j then none else s j
spec_step s (update pc) = if is_some (s pc.id) then set pc s else s
spec_step s (sync pcs) = λ id. last_proxy id pcs
spec_step s (start_listed pcs) = spec_start pcs s
spec_step s stop_everything = λ id. none

unfoldable pub spec_run : Spec → List (ℕ × Call) → Spec
unfolding spec_step
spec_run s [] = s
spec_run s ((now, c) ∷ cs) = spec_run (spec_step s c) cs

-- Whether a call returns no error.
unfoldable pub succeeds : Manager → ℕ × Call → Bool
succeeds m (now, add pc) = not (is_some (add_proxy now pc m).0)
succeeds m (now, remove_id id) = not (is_some (remove_proxy id m).0)
succeeds m (now, update pc) = not (is_some (update_proxy now pc.id pc m).0)
succeeds m (now, _) = true

unfoldable pub spec_succeeds : Spec → Call → Bool
spec_succeeds s (add pc) = not (is_some (s pc.id))
spec_succeeds s (remove_id id) = is_some (s id)
spec_succeeds s (update pc) = is_some (s pc.id)
spec_succeeds s _ = true

-- Each registered proxy has the configuration of the specification and forwards exactly if it says
-- so.
abbrev pub Refines : Manager → Spec → Type 0
Refines m s = (id : Text) → view m id ≡ as_view (s id)

is_some-as_view : (o : Option ProxyConfig) → is_some (as_view o) ≡ is_some o
is_some-as_view none = refl
is_some-as_view (some pc) = refl

is_some-view_of : (o : Option TcpServer) → is_some (view_of o) ≡ is_some o
is_some-view_of none = refl
is_some-view_of (some t) = refl

not_some {ℓ} : {A : Type ℓ} (o : Option A) → is_some o ≡ false → o ≡ none
not_some none h = refl
not_some (some a) h = cc

module _ (m : Manager) (s : Spec) (h : Refines m s) where
  registered : (id : Text) → is_some (get m.servers id) ≡ is_some (s id)
  unfolding view
  registered id = ground (arith, is_some-view_of (get m.servers id), is_some-as_view (s id), h id)

  without : (id j : Text) → s id ≡ none → s j ≡ (if id == j then none else s j)
  without id j absent = elim (Bool-cases (id == j)) [
    | inl q ↦ rw q (rw (← (eq_iff id j).0 q) absent)
    | inr q ↦ rw q refl
  ]

  add-Refines :
      (now : ℕ) (pc : ProxyConfig)
      → Refines (add_proxy now pc m).1 (spec_add pc s)
        × (is_some (add_proxy now pc m).0 ≡ is_some (s pc.id))
  unfolding add_proxy spec_add set
  add-Refines now pc = elim (Bool-cases (is_some (s pc.id))) [
    | inl e ↦ rw (e, registered pc.id, e) (h, refl)
    | inr e ↦
        let absent : view m pc.id ≡ none = h pc.id ∙ ap as_view (not_some (s pc.id) e) in
        let (fine, shows) = add_proxy-Shows now pc m absent in
        rw e (λ id. ground (arith, shows id, h id), ap is_some fine)
  ]

  update-Refines :
      (now : ℕ) (pc : ProxyConfig)
      → Refines (update_proxy now pc.id pc m).1 (if is_some (s pc.id) then set pc s else s)
        × (not (is_some (update_proxy now pc.id pc m).0) ≡ is_some (s pc.id))
  unfolding update_proxy set
  update-Refines now pc = elim (Bool-cases (is_some (s pc.id))) [
    | inl e ↦
        let seen : is_some (view m pc.id) ≡ true =
          ap is_some (h pc.id) ∙ is_some-as_view (s pc.id) ∙ e in
        let (fine, shows) = update_proxy-Shows now pc m seen in
        rw e (λ id. ground (arith, shows id, h id), ap (λ o. not (is_some o)) fine)
    | inr e ↦ rw (e, not_some (get m.servers pc.id) (registered pc.id ∙ e)) (h, refl)
  ]

  remove-Refines :
      (id : Text)
      → Refines (remove_proxy id m).1 (λ j. if id == j then none else s j)
        × (not (is_some (remove_proxy id m).0) ≡ is_some (s id))
  unfolding remove_proxy
  remove-Refines id = elim (Bool-cases (is_some (s id))) [
    | inl e ↦
        let seen : is_some (view m id) ≡ true = ap is_some (h id) ∙ is_some-as_view (s id) ∙ e in
        let (fine, shows) = remove_proxy-view id m seen in
        (λ j. ground (arith, shows j, h j), ap (λ o. not (is_some o)) fine ∙ sym e)
    | inr e ↦
        rw (e, not_some (get m.servers id) (registered id ∙ e))
          (λ j. h j ∙ ap as_view (without id j (not_some (s id) e)), refl)
  ]

pub start-Refines :
    (now : ℕ) (pcs : List ProxyConfig) (m : Manager) (s : Spec)
    → Refines m s
    → Refines (start_all now pcs m) (spec_start pcs s)
unfolding start_all spec_start
start-Refines now [] m s h = h
start-Refines now (pc ∷ pcs) m s h =
    start-Refines now pcs (add_proxy now pc m).1 (spec_add pc s) (add-Refines m s h now pc).0

step-Refines :
    (m : Manager) (s : Spec) (now : ℕ) (c : Call)
    → Refines m s
    → Refines (step m (now, c)) (spec_step s c) × (succeeds m (now, c) ≡ spec_succeeds s c)
unfolding step spec_step succeeds spec_succeeds
step-Refines m s now (add pc) h = let (r, e) = add-Refines m s h now pc in (r, ap not e)
step-Refines m s now (remove_id id) h = remove-Refines m s h id
step-Refines m s now (update pc) h = update-Refines m s h now pc
step-Refines m s now (sync pcs) h = (view-sync_with_config now pcs m, refl)
step-Refines m s now (start_listed pcs) h = (start-Refines now pcs m s h, refl)
step-Refines m s now stop_everything h = (λ id. unfold stop_all view get in refl, refl)

run-step_Refines :
    (cs : List (ℕ × Call)) (m : Manager) (s : Spec)
    → Refines m s
    → Refines (run m cs) (spec_run s cs)
unfolding run spec_run
run-step_Refines [] m s h = h
run-step_Refines ((now, c) ∷ cs) m s h =
    run-step_Refines cs (step m (now, c)) (spec_step s c) (step-Refines m s now c h).0

-- After any calls on a new manager, what is registered under each id and whether it forwards is what
-- the map of the specification says after the same calls, and the next call returns no error
-- exactly where the specification says so.
pub run-Refines :
    (cs : List (ℕ × Call)) (now : ℕ) (c : Call)
    → let s = spec_run (λ id. none) cs in
      Refines (run new_manager cs) s × (succeeds (run new_manager cs) (now, c) ≡ spec_succeeds s c)
run-Refines cs now c =
    let r : Refines (run new_manager cs) (spec_run (λ id. none) cs) =
      run-step_Refines cs new_manager (λ id. none) (λ id. unfold view get in refl) in
    (r, (step-Refines (run new_manager cs) (spec_run (λ id. none) cs) now c r).1)
