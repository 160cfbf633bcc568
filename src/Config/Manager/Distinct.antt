-- ===== src/Config/Manager/Distinct.antt =====
-- The edits of the list of proxies keep the ids distinct, and the file where they fail.
use pspxy.Base.{
  Option-cases, inl, inr, ap, ◌≡◌, refl, Bool, true, false, List, [], ◌∷◌, ◌++◌, Option, none, some,
  if◌then◌else◌, arith, is_some, Text, ◌==◌, eq_iff,
}
use pspxy.Config.{ProxyConfig}
use pspxy.Config.Manager.{
  Yaml, Env, Manager, Error, replace_first, remove_first, add_proxy, update_proxy, remove_proxy,
  save_found,
}
use pspxy.Config.Manager.Edit.{
  find_proxy, IsDistinctIds, Replaced, replace_first-Replaced, Removed, remove_first-Removed,
  proxies-save_edited, file-save_edited,
}

find_proxy-append :
    (id : Text) (ps : List ProxyConfig) (p : ProxyConfig)
    → find_proxy id ps ≡ none
    → find_proxy id (ps ++ p ∷ []) ≡ (if p.id == id then some p else none)
unfolding find_proxy
find_proxy-append id [] p h = refl
find_proxy-append id (q ∷ ps) p h = ground (arith, find_proxy-append id ps p)

find_proxy-append_found :
    (id : Text) (ps : List ProxyConfig) (p : ProxyConfig)
    → is_some (find_proxy id ps) ≡ true
    → find_proxy id (ps ++ p ∷ []) ≡ find_proxy id ps
unfolding find_proxy
find_proxy-append_found id [] p h = cc
find_proxy-append_found id (q ∷ ps) p h = ground (arith, find_proxy-append_found id ps p)

-- A new id is found at the end, and the others where they were.
pub find_proxy-append_new :
    (ps : List ProxyConfig) (p : ProxyConfig)
    → find_proxy p.id ps ≡ none
    → (j : Text) → find_proxy j (ps ++ p ∷ []) ≡ (if p.id == j then some p else find_proxy j ps)
find_proxy-append_new ps p n j = elim (Option-cases (find_proxy j ps)) [
  | inl e ↦ rw (find_proxy-append j ps p e) (rw e refl)
  | inr (q, e) ↦ rw (find_proxy-append_found j ps p (ap is_some e)) (ground (arith, eq_iff p.id j))
]

append-IsDistinctIds :
    (ps : List ProxyConfig) (p : ProxyConfig)
    → find_proxy p.id ps ≡ none
    → IsDistinctIds ps
    → IsDistinctIds (ps ++ p ∷ [])
unfolding IsDistinctIds find_proxy
append-IsDistinctIds [] p h d = (refl, tt)
append-IsDistinctIds (q ∷ ps) p h d = (
  ground (arith, find_proxy-append q.id ps p d.0, eq_iff p.id q.id, eq_iff q.id p.id),
  append-IsDistinctIds ps p (ground arith) d.1,
)

-- Where there is a list, it has distinct ids.
abbrev AreDistinct : Option (List ProxyConfig) → Type 0
AreDistinct none = Unit
AreDistinct (some ps) = IsDistinctIds ps

replace_first-IsDistinctIds :
    (id : Text) (p : ProxyConfig) (ps : List ProxyConfig)
    → IsDistinctIds ps
    → AreDistinct (replace_first id p ps)
unfolding IsDistinctIds replace_first
replace_first-IsDistinctIds id p [] d = tt
replace_first-IsDistinctIds id p (q ∷ ps) d =
    go (q.id == id) refl (replace_first id p ps) (replace_first-Replaced id p ps)
      (replace_first-IsDistinctIds id p ps d.1)
  where
    go :
        (b : Bool)
        → (q.id == id) ≡ b
        → (o : Option (List ProxyConfig)) → Replaced id p ps o
        → AreDistinct o
        → AreDistinct (elim b [
          | true ↦ some (record p { id = id } ∷ ps)
          | false ↦ elim o [ none ↦ none | some rest ↦ some (q ∷ rest) ]
        ])
    go true e o r a = (rw (← (eq_iff q.id id).0 e) d.0, d.1)
    go false e none r a = tt
    go false e (some rest) r a = (ground (arith, r.1 q.id, eq_iff q.id id, eq_iff id q.id, d), a)

remove_first-IsDistinctIds :
    (id : Text) (ps : List ProxyConfig) → IsDistinctIds ps → AreDistinct (remove_first id ps)
unfolding IsDistinctIds remove_first
remove_first-IsDistinctIds id [] d = tt
remove_first-IsDistinctIds id (q ∷ ps) d =
    go (q.id == id) (remove_first id ps) (remove_first-Removed id ps d.1)
      (remove_first-IsDistinctIds id ps d.1)
  where
    go :
        (b : Bool) (o : Option (List ProxyConfig))
        → Removed id ps o
        → AreDistinct o
        → AreDistinct (elim b [
          | true ↦ some ps
          | false ↦ elim o [ none ↦ none | some rest ↦ some (q ∷ rest) ]
        ])
    go true o r a = d.1
    go false none r a = tt
    go false (some rest) r a = (ground (arith, r.1 q.id, d), a)

module _ (y : Yaml) (env : Env) (m : Manager) (d : IsDistinctIds m.config.proxies) where
  -- The three edits keep the ids distinct, where a new proxy has a new id.
  pub add_proxy-IsDistinctIds :
      (p : ProxyConfig)
      → find_proxy p.id m.config.proxies ≡ none
      → IsDistinctIds (add_proxy y env p m).1.config.proxies
  unfolding add_proxy
  add_proxy-IsDistinctIds p h =
      rw (proxies-save_edited y env (m.config.proxies ++ p ∷ []) m)
        (append-IsDistinctIds m.config.proxies p h d)

  found-IsDistinctIds :
      (id : Text) (o : Option (List ProxyConfig))
      → AreDistinct o
      → IsDistinctIds (save_found y env id m o).1.config.proxies
  unfolding save_found
  found-IsDistinctIds id none a = d
  found-IsDistinctIds id (some ps) a = rw (proxies-save_edited y env ps m) a

  pub update_proxy-IsDistinctIds :
      (id : Text) (p : ProxyConfig) → IsDistinctIds (update_proxy y env id p m).1.config.proxies
  unfolding update_proxy
  update_proxy-IsDistinctIds id p =
      found-IsDistinctIds id _ (replace_first-IsDistinctIds id p m.config.proxies d)

  pub remove_proxy-IsDistinctIds :
      (id : Text) → IsDistinctIds (remove_proxy y env id m).1.config.proxies
  unfolding remove_proxy
  remove_proxy-IsDistinctIds id =
      found-IsDistinctIds id _ (remove_first-IsDistinctIds id m.config.proxies d)

-- A failed edit leaves the file alone.
abbrev pub KeepsFile : Manager → Option Error × Manager → Type 0
KeepsFile m (o, m') = (e : Error) → o ≡ some e → m'.file ≡ m.file

module _ (y : Yaml) (env : Env) (id : Text) (m : Manager) where
  found-KeepsFile : (o : Option (List ProxyConfig)) → KeepsFile m (save_found y env id m o)
  unfolding save_found
  found-KeepsFile none e h = refl
  found-KeepsFile (some ps) e h = file-save_edited y env ps m e h

  pub update_proxy-KeepsFile : (p : ProxyConfig) → KeepsFile m (update_proxy y env id p m)
  unfolding update_proxy
  update_proxy-KeepsFile p = found-KeepsFile (replace_first id p m.config.proxies)

  pub remove_proxy-KeepsFile : KeepsFile m (remove_proxy y env id m)
  unfolding remove_proxy
  remove_proxy-KeepsFile = found-KeepsFile (remove_first id m.config.proxies)
