-- ===== src/Config/Manager/Edit.antt =====
-- What `AddProxy`, `UpdateProxy` and `RemoveProxy` do to the list of proxies.
use pspxy.Base.{
  ◌≡◌, refl, ap, Bool, true, false, List, [], ◌∷◌, ◌++◌, Option, none, some, if◌then◌else◌, arith,
  is_some, Text, Option-cases, inl, inr, ◌⊎◌, ◌==◌, eq_iff,
}
use pspxy.Config.{ProxyConfig, Config}
use pspxy.Config.Manager.{
  Yaml, Env, Manager, Error, not_found, save, replace_first, remove_first, add_proxy, update_proxy,
  remove_proxy, save_found, save_edited,
}
use pspxy.Config.Manager.Save.{save_atomic, save_stores}

-- The first entry of an id.
unfoldable pub find_proxy : Text → List ProxyConfig → Option ProxyConfig
find_proxy id [] = none
find_proxy id (p ∷ ps) = if p.id == id then some p else find_proxy id ps

-- How `UpdateProxy`'s loop relates to a lookup: it fails where the lookup does.
abbrev pub Replaced : Text → ProxyConfig → List ProxyConfig → Option (List ProxyConfig) → Type 0
Replaced id p ps none = find_proxy id ps ≡ none
Replaced id p ps (some qs) =
    (is_some (find_proxy id ps) ≡ true)
    × ((j : Text)
        → find_proxy j qs ≡ (if id == j then some (record p { id = id }) else find_proxy j ps))

pub replace_first-Replaced :
    (id : Text) (p : ProxyConfig) (ps : List ProxyConfig) → Replaced id p ps (replace_first id p ps)
unfolding find_proxy replace_first
replace_first-Replaced id p [] = refl
replace_first-Replaced id p (q ∷ ps) =
    go (q.id == id) refl (replace_first id p ps) (replace_first-Replaced id p ps)
  where
    go :
        (b : Bool)
        → (q.id == id) ≡ b
        → (o : Option (List ProxyConfig)) → Replaced id p ps o
        → Replaced id p (q ∷ ps) (elim b [
          | true ↦ some (record p { id = id } ∷ ps)
          | false ↦ elim o [ none ↦ none | some rest ↦ some (q ∷ rest) ]
        ])
    go true e o h = (rw e refl, λ j. ground (arith, eq_iff q.id id, eq_iff id j, eq_iff q.id j))
    go false e none h = rw e h
    go false e (some rest) h =
        (rw e h.0, λ j. ground (arith, eq_iff q.id id, eq_iff id j, eq_iff q.id j, h.1 j))

-- The ids are distinct.
unfoldable pub IsDistinctIds : List ProxyConfig → Type 0
IsDistinctIds [] = Unit
IsDistinctIds (p ∷ ps) = (find_proxy p.id ps ≡ none) × IsDistinctIds ps

abbrev pub Removed : Text → List ProxyConfig → Option (List ProxyConfig) → Type 0
Removed id ps none = find_proxy id ps ≡ none
Removed id ps (some qs) =
    (is_some (find_proxy id ps) ≡ true)
    × ((j : Text) → find_proxy j qs ≡ (if id == j then none else find_proxy j ps))

pub remove_first-Removed :
    (id : Text) (ps : List ProxyConfig) → IsDistinctIds ps → Removed id ps (remove_first id ps)
unfolding find_proxy remove_first IsDistinctIds
remove_first-Removed id [] d = refl
remove_first-Removed id (q ∷ ps) d =
    go (q.id == id) refl (remove_first id ps) (remove_first-Removed id ps d.1)
  where
    go :
        (b : Bool)
        → (q.id == id) ≡ b
        → (o : Option (List ProxyConfig)) → Removed id ps o
        → Removed id (q ∷ ps) (elim b [
          | true ↦ some ps
          | false ↦ elim o [ none ↦ none | some rest ↦ some (q ∷ rest) ]
        ])
    go true e o h =
        (rw e refl, λ j. ground (arith, eq_iff q.id id, eq_iff id j, eq_iff q.id j, d.0))
    go false e none h = rw e h
    go false e (some rest) h =
        (rw e h.0, λ j. ground (arith, eq_iff q.id id, eq_iff id j, eq_iff q.id j, h.1 j))

module _ (y : Yaml) (env : Env) (ps : List ProxyConfig) (m : Manager) where
  -- The configuration in memory holds the edited list, whether it could be saved or not.
  pub proxies-save_edited : (save_edited y env ps m).1.config.proxies ≡ ps
  unfolding save_edited
  proxies-save_edited = elim (Option-cases (save y env edited held).0) [
    | inl e ↦ ap (λ (c : Config). c.proxies) (save_stores y env edited held e).0
    | inr (x, e) ↦ ap (λ (c : Config). c.proxies) (save_atomic y env edited held x e).1
  ]
    where
      edited : Config
      edited = let config = m.config in record config { proxies = ps }

      held : Manager
      held = record m { config = edited }

  pub file-save_edited :
      (e : Error) → (save_edited y env ps m).0 ≡ some e → (save_edited y env ps m).1.file ≡ m.file
  unfolding save_edited
  file-save_edited e h = (save_atomic y env _ _ e h).0

-- After `UpdateProxy`, a lookup of the id gives the new entry under that id, every other lookup is
-- as before, in memory, also when the save failed; an id that is not there gives `not_found`, and
-- then nothing changes.
pub update_proxy-find :
    (y : Yaml) (env : Env) (id : Text) (p : ProxyConfig) (m : Manager)
    → ((find_proxy id m.config.proxies ≡ none)
        × (update_proxy y env id p m ≡ (some (not_found id), m)))
      ⊎ ((is_some (find_proxy id m.config.proxies) ≡ true)
          × ((j : Text)
              → find_proxy j (update_proxy y env id p m).1.config.proxies
                ≡ (if id == j then some (record p { id = id }) else find_proxy j m.config.proxies)))
unfolding update_proxy
update_proxy-find y env id p m =
    go (replace_first id p m.config.proxies) (replace_first-Replaced id p m.config.proxies)
  where
    go :
        (o : Option (List ProxyConfig))
        → Replaced id p m.config.proxies o
        → ((find_proxy id m.config.proxies ≡ none)
            × (save_found y env id m o ≡ (some (not_found id), m)))
          ⊎ ((is_some (find_proxy id m.config.proxies) ≡ true)
              × ((j : Text)
                  → find_proxy j (save_found y env id m o).1.config.proxies ≡ (
                      if id == j
                      then some (record p { id = id })
                      else find_proxy j m.config.proxies)))
    go none h = inl (h, refl)
    go (some ps) h = inr (h.0, λ j. rw (proxies-save_edited y env ps m) (h.1 j))

-- After `RemoveProxy`, where the ids are distinct, a lookup of the id finds nothing and every other
-- lookup is as before, in memory, also when the save failed; an id that is not there gives
-- `not_found`, and then nothing changes.
pub remove_proxy-find :
    (y : Yaml) (env : Env) (id : Text) (m : Manager)
    → IsDistinctIds m.config.proxies
    → ((find_proxy id m.config.proxies ≡ none)
        × (remove_proxy y env id m ≡ (some (not_found id), m)))
      ⊎ ((is_some (find_proxy id m.config.proxies) ≡ true)
          × ((j : Text)
              → find_proxy j (remove_proxy y env id m).1.config.proxies
                ≡ (if id == j then none else find_proxy j m.config.proxies)))
unfolding remove_proxy
remove_proxy-find y env id m d =
    go (remove_first id m.config.proxies) (remove_first-Removed id m.config.proxies d)
  where
    go :
        (o : Option (List ProxyConfig))
        → Removed id m.config.proxies o
        → ((find_proxy id m.config.proxies ≡ none)
            × (save_found y env id m o ≡ (some (not_found id), m)))
          ⊎ ((is_some (find_proxy id m.config.proxies) ≡ true)
              × ((j : Text)
                  → find_proxy j (save_found y env id m o).1.config.proxies
                    ≡ (if id == j then none else find_proxy j m.config.proxies)))
    go none h = inl (h, refl)
    go (some ps) h = inr (h.0, λ j. rw (proxies-save_edited y env ps m) (h.1 j))

-- `AddProxy` appends the proxy to the list in memory on every outcome; on an error the file still
-- holds the old list.
pub add_proxy-proxies :
    (y : Yaml) (env : Env) (p : ProxyConfig) (m : Manager)
    → ((add_proxy y env p m).1.config.proxies ≡ m.config.proxies ++ p ∷ [])
      × ((e : Error) → (add_proxy y env p m).0 ≡ some e → (add_proxy y env p m).1.file ≡ m.file)
unfolding add_proxy
add_proxy-proxies y env p m =
    let ps = m.config.proxies ++ p ∷ [] in
    (proxies-save_edited y env ps m, file-save_edited y env ps m)
