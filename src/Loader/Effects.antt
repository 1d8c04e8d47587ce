-- ===== src/Loader/Effects.antt =====
-- loader/main.go from its start to its end: what is created, attached and closed on the way, and how
-- the goroutines may end the program.
use beacon_guard.Prelude.{
  ℕ, ◌+◌, ◌-◌, not, List, [], ◌∷◌, ◌++◌, map, Option, none, some, String, length, ◌==◌,
  if◌then◌else◌,
}
use text.Mathlib.Text.{◌==◌ as str_eq}
use beacon_guard.Config.{LoadResult, loaded, read_failed, bad_json, load_config}
use beacon_guard.Loader.{Collection, Env, Flags, attachments, bpf_dir, attach_all}

-- How the running program ends: by SIGINT or SIGTERM, by `log.Fatal` when the HTTP server returns, or
-- by `log.Fatalf` when the ring buffer has no reader.
pub data Ending : Type 0 where
  interrupted server_returned no_reader : Ending

-- `exited` is the end by `log.Fatal` or `os.Exit`, which runs no deferred call.
pub data Effect : Type 0 where
  collection_created : Effect
  attached : String → Effect
  launched : Effect
  signalled : Effect
  link_closed : String → Effect
  collection_closed : Effect
  exited : Effect

-- After a signal the links are closed, and the deferred `coll.Close` runs when `main` returns.
unfoldable pub shut_down : Ending → List String → List Effect
shut_down interrupted linked = signalled ∷ (map link_closed linked ++ collection_closed ∷ [])
shut_down server_returned linked = exited ∷ []
shut_down no_reader linked = exited ∷ []

module _ (env : Env) (ending : Ending) where
  unfoldable pub launch_effects : Collection → List String → List Effect
  unfolding shut_down
  launch_effects coll linked =
      if length linked == 0
      then exited ∷ []
      else if coll.has_map "events"
      then launched ∷ shut_down ending linked
      else exited ∷ []

  unfoldable pub collection_effects : Option Collection → List Effect
  unfolding launch_effects
  collection_effects none = exited ∷ []
  collection_effects (some coll) =
      let linked = attach_all env coll attachments in
      collection_created ∷ (map attached linked ++ launch_effects coll linked)

  unfoldable pub spec_effects : Option ℕ → List Effect
  unfolding collection_effects
  spec_effects none = exited ∷ []
  spec_effects (some spec) = collection_effects (env.new_collection spec)

  unfoldable pub config_effects : Flags → LoadResult → List Effect
  unfolding spec_effects
  config_effects flags read_failed = exited ∷ []
  config_effects flags bad_json = exited ∷ []
  config_effects flags (loaded config) =
      if not env.memlock
      then exited ∷ []
      else spec_effects (env.load_spec (env.join (bpf_dir env flags) ("beacon_guard.bpf.o" ∷ [])))

  -- `main`.
  unfoldable pub main_effects : Flags → List Effect
  unfolding config_effects
  main_effects flags =
      if flags.show_version
      then exited ∷ []
      else config_effects flags (load_config env.decode (env.read_file flags.config_path))

-- What the program holds in the kernel.
pub record Held : Type 0 where
  pub collections : ℕ
  pub open_links : List String

abbrev pub nothing_held : Held
nothing_held = record { collections = 0; open_links = [] }

abbrev pub without : String → List String → List String
without name [] = []
without name (x ∷ more) = let rest = without name more in if str_eq x name then more else x ∷ rest

abbrev pub apply : Effect → Held → Held
apply collection_created h = record h { collections = h.collections + 1 }
apply (attached name) h = record h { open_links = h.open_links ++ name ∷ [] }
apply (link_closed name) h = record h { open_links = without name h.open_links }
apply collection_closed h = record h { collections = h.collections - 1 }
apply _ h = h

abbrev pub held : List Effect → Held → Held
held [] h = h
held (e ∷ more) h = held more (apply e h)
