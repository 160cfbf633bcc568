-- ===== src/Config/Watcher/HotReload.antt =====
-- A change of the configuration's file reaches the memory.
use pspxy.Base.{
  ◌≡◌, refl, Bool, true, false, ◌&&◌, ◌||◌, List, [], ◌∷◌, ◌++◌, some, if◌then◌else◌, Text, any,
  all, arith, ◌∙◌,
}
use pspxy.Config.{Config}
use pspxy.Config.Manager.{Yaml, Env, Manager, with_defaults, load, reload, notify}
use pspxy.Config.Watcher.{
  Signal, file_event, events_closed, watch_error, errors_closed, done, Step, written, received,
  Loop, turn, step, loop,
}

-- The loop goes on after the signal.
unfoldable pub stays : Signal → Bool
stays (file_event write create) = true
stays (watch_error e) = true
stays events_closed = false
stays errors_closed = false
stays done = false

-- The file was written or created.
unfoldable pub is_change : Signal → Bool
is_change (file_event write create) = write || create
is_change s = false

unfoldable pub goes_on : Step → Bool
unfolding stays
goes_on (written file) = true
goes_on (received env s) = stays s

-- A signal after which the loop goes on; nobody else writes the file.
unfoldable pub is_undisturbed : Step → Bool
unfolding stays
is_undisturbed (written file) = false
is_undisturbed (received env s) = stays s

-- The loop hears of a change, and the file can be read then.
unfoldable pub is_heard : Step → Bool
unfolding is_change
is_heard (written file) = false
is_heard (received env s) = is_change s && env.can_read

-- The content of the file, and what it parses to.
module _ (y : Yaml) (t : Text) (c : Config) (u : y.unmarshal t ≡ some c) where
  reload-file : (env : Env) (m : Manager) → m.file ≡ some t → (reload y env m).1.file ≡ some t
  unfolding reload load notify
  reload-file env m f = rw f (rw u (ground arith))

  reload-config :
      (env : Env) (m : Manager)
      → m.file ≡ some t
      → (reload y env m).1.config ≡ (if env.can_read then with_defaults c else m.config)
  unfolding reload load notify
  reload-config env m f = rw f (rw u (ground arith))

  step-file :
      (s : Step) (l : Loop)
      → is_undisturbed s ≡ true
      → l.mgr.file ≡ some t
      → (step y s l).mgr.file ≡ some t
  unfolding is_undisturbed step turn
  step-file (written file) l g f = absurd (ground arith)
  step-file (received env (file_event w k)) l g f = ground (arith, reload-file env l.mgr f)
  step-file (received env (watch_error e)) l g f = ground arith
  step-file (received env events_closed) l g f = ground arith
  step-file (received env errors_closed) l g f = ground arith
  step-file (received env done) l g f = ground arith

  step-config :
      (s : Step) (l : Loop)
      → is_undisturbed s ≡ true
      → l.running ≡ true
      → l.mgr.file ≡ some t
      → (step y s l).mgr.config ≡ (if is_heard s then with_defaults c else l.mgr.config)
  unfolding is_undisturbed stays is_heard is_change step turn
  step-config (written file) l g r f = absurd (ground arith)
  step-config (received env (file_event w k)) l g r f =
      rw r (ground (arith, reload-config env l.mgr f))
  step-config (received env (watch_error e)) l g r f = rw r refl
  step-config (received env events_closed) l g r f = absurd (ground arith)
  step-config (received env errors_closed) l g r f = absurd (ground arith)
  step-config (received env done) l g r f = absurd (ground arith)

module _ (y : Yaml) where
  step-running :
      (s : Step) (l : Loop) → goes_on s ≡ true → l.running ≡ true → (step y s l).running ≡ true
  unfolding goes_on stays step turn
  step-running (written file) l g r = r
  step-running (received env (file_event w k)) l g r = rw r (ground arith)
  step-running (received env (watch_error e)) l g r = rw r refl
  step-running (received env events_closed) l g r = absurd (ground arith)
  step-running (received env errors_closed) l g r = absurd (ground arith)
  step-running (received env done) l g r = absurd (ground arith)

goes_on-is_undisturbed : (s : Step) → is_undisturbed s ≡ true → goes_on s ≡ true
unfolding is_undisturbed goes_on
goes_on-is_undisturbed (written file) g = refl
goes_on-is_undisturbed (received env s) g = g

module _ (y : Yaml) (t : Text) (c : Config) (u : y.unmarshal t ≡ some c) where
  loop-settles :
      (ss : List Step) (l : Loop)
      → all is_undisturbed ss ≡ true
      → l.running ≡ true
      → l.mgr.file ≡ some t
      → (loop y ss l).mgr.config ≡ (if any is_heard ss then with_defaults c else l.mgr.config)
  unfolding loop all any
  loop-settles [] l g r f = refl
  loop-settles (s ∷ ss) l g r f =
      let gs : is_undisturbed s ≡ true = ground (arith, g) in
      let rest =
        loop-settles ss (step y s l) (ground (arith, g))
          (step-running y s l (goes_on-is_undisturbed s gs) r) (step-file y t c u s l gs f) in
      ground (arith, rest, step-config y t c u s l gs r f)

  -- While the loop runs, the file is written, by whatever program, with a text that parses. If the
  -- loop hears of a change later on and can read the file then, and nobody writes the file and the
  -- watcher is not closed in between, the configuration in memory at the end is the file's, with
  -- the defaults for an unset port and directory, whatever else is signalled, before and after.
  pub loop-reads :
      (before after : List Step) (l : Loop)
      → l.running ≡ true
      → all goes_on before ≡ true
      → all is_undisturbed after ≡ true
      → any is_heard after ≡ true
      → (loop y (before ++ written (some t) ∷ after) l).mgr.config ≡ with_defaults c
  unfolding loop all goes_on step
  loop-reads [] after l r b g h =
      let m = l.mgr in loop-settles after (step y (written (some t)) l) g r refl ∙ rw h refl
  loop-reads (s ∷ ss) after l r b g h =
      let bs : goes_on s ≡ true = ground (arith, b) in
      loop-reads ss after (step y s l) (step-running y s l bs r) (ground (arith, b)) g h
