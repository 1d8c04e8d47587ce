-- ===== src/Loader/Startup.antt =====
-- How the start of loader/main.go ends: every end, with the steps that lead to it.
use mathlib.Core.Path.{subst}
use beacon_guard.Prelude.{
  ℕ, ◌<◌, ◌≡◌, refl, ap, ◌∙◌, ◌↔◌, ==_false, ==_iff, true, false, not, not-true, not-false, List,
  [], ◌∷◌, Option, none, some, String, arith, length, ◌==◌, if_cases, if_true, if_false,
}
use beacon_guard.Config.{Config, LoadResult, loaded, read_failed, bad_json, load_config}
use beacon_guard.Config.Load.{Loads, load_config_iff}
use beacon_guard.Loader.{
  attachments, Collection, Env, Flags, Start, version_shown, fatal, running, bad_config,
  memlock_failed, bad_spec, bad_collection, nothing_attached, no_events_map, bpf_dir, attach_all,
  finish_start, with_collection, with_spec, with_config, start,
}
use beacon_guard.Loader.Hooks.{
  Hooked, Directory, attach_all-Hooked, Hooked-attach_all, bpf_dir-Directory, Directory-bpf_dir,
}

module _ (env : Env) (flags : Flags) where
  -- The version is not asked for, and the configuration loads.
  pub record Configured (config : Config) : Type 0 where
    pub not_version : flags.show_version ≡ false
    pub loads : Loads env.decode (env.read_file flags.config_path) config

  -- The memory lock is lifted too, and this is what loading the specification gives.
  pub record Specified (config : Config) (spec : Option ℕ) : Type 0 where
    pub configured : Configured config
    pub unlocked : env.memlock ≡ true
    pub dir : String
    pub found : Directory env flags dir
    pub answered : env.load_spec (env.join dir ("beacon_guard.bpf.o" ∷ [])) ≡ spec

  -- A specification is loaded, this is what creating the collection gives.
  pub record Collected (config : Config) (coll : Option Collection) : Type 0 where
    pub spec : ℕ
    pub specified : Specified config (some spec)
    pub created : env.new_collection spec ≡ coll

  pub data Ends : Start → Type 0 where
    asked : flags.show_version ≡ true → Ends version_shown
    unloadable :
        flags.show_version ≡ false
        → ((c : Config) → ¬ Loads env.decode (env.read_file flags.config_path) c)
        → Ends (fatal bad_config)
    locked : (c : Config) → Configured c → env.memlock ≡ false → Ends (fatal memlock_failed)
    unspecified : (c : Config) → Specified c none → Ends (fatal bad_spec)
    uncollected : (c : Config) → Collected c none → Ends (fatal bad_collection)
    unattached :
        (c : Config) (coll : Collection)
        → Collected c (some coll)
        → Hooked env coll attachments []
        → Ends (fatal nothing_attached)
    no_events :
        (c : Config) (coll : Collection) (names : List String)
        → Collected c (some coll)
        → Hooked env coll attachments names
        → 0 < length names
        → coll.has_map "events" ≡ false
        → Ends (fatal no_events_map)
    runs :
        (c : Config) (coll : Collection) (names : List String)
        → Collected c (some coll)
        → Hooked env coll attachments names
        → 0 < length names
        → coll.has_map "events" ≡ true
        → Ends (running c names)

  -- The steps forth.
  finish_start-Ends :
      (c : Config) (coll : Collection)
      → Collected c (some coll)
      → Ends (finish_start env c coll (attach_all env coll attachments))
  unfolding finish_start
  finish_start-Ends c coll made =
      let names = attach_all env coll attachments in
      let hooked = attach_all-Hooked env coll attachments in
      if_cases Ends (length names == 0) _ _
        (λ e. unattached c coll made (
          subst (Hooked env coll attachments) (empty names ((==_iff (length names) 0).0 e)) hooked))
        (λ some_of.
          if_cases Ends (coll.has_map "events") _ _
            (λ e. runs c coll names made hooked (ground arith) e)
            (λ e. no_events c coll names made hooked (ground arith) e))
    where
      empty : (names : List String) → length names ≡ 0 → names ≡ []
      empty [] e = refl
      empty (x ∷ names) e = absurd (omega arith)

  with_collection-Ends :
      (c : Config) (o : Option Collection) → Collected c o → Ends (with_collection env c o)
  unfolding with_collection
  with_collection-Ends c none made = uncollected c made
  with_collection-Ends c (some coll) made = finish_start-Ends c coll made

  with_spec-Ends : (c : Config) (o : Option ℕ) → Specified c o → Ends (with_spec env c o)
  unfolding with_spec
  with_spec-Ends c none s = unspecified c s
  with_spec-Ends c (some spec) s =
      with_collection-Ends c (env.new_collection spec)
        (record { spec = spec; specified = s; created = refl })

  with_config-Ends :
      (r : LoadResult)
      → flags.show_version ≡ false
      → load_config env.decode (env.read_file flags.config_path) ≡ r
      → Ends (with_config env flags r)
  unfolding with_config
  with_config-Ends read_failed v e =
      unloadable v
        (λ c h. failed c e ((load_config_iff env.decode (env.read_file flags.config_path) c).1 h))
    where
      failed : (c : Config) {r : LoadResult} → r ≡ read_failed → r ≡ loaded c → ⊥
      failed c e h = cc
  with_config-Ends bad_json v e =
      unloadable v
        (λ c h. failed c e ((load_config_iff env.decode (env.read_file flags.config_path) c).1 h))
    where
      failed : (c : Config) {r : LoadResult} → r ≡ bad_json → r ≡ loaded c → ⊥
      failed c e h = cc
  with_config-Ends (loaded c) v e =
      let ready : Configured c = record {
        not_version = v;
        loads = (load_config_iff env.decode (env.read_file flags.config_path) c).0 e;
      } in
      if_cases Ends (not env.memlock) _ _ (λ m. locked c ready (not-true env.memlock m))
        (λ m. with_spec-Ends c _ (record {
          configured = ready;
          unlocked = not-false env.memlock m;
          dir = bpf_dir env flags;
          found = bpf_dir-Directory env flags;
          answered = refl;
        }))

  start-Ends : Ends (start env flags)
  unfolding start
  start-Ends = if_cases Ends flags.show_version _ _ (λ v. asked v) (λ v. with_config-Ends _ v refl)

  -- The steps back.
  start-Configured :
      (c : Config) → Configured c → start env flags ≡ with_config env flags (loaded c)
  unfolding start
  start-Configured c r =
      if_false flags.show_version _ _ r.not_version
      ∙ ap (with_config env flags)
          ((load_config_iff env.decode (env.read_file flags.config_path) c).1 r.loads)

  start-Specified :
      (c : Config) (o : Option ℕ) → Specified c o → start env flags ≡ with_spec env c o
  unfolding with_config
  start-Specified c o s =
      start-Configured c s.configured
      ∙ if_false (not env.memlock) _ _ (ap not s.unlocked)
      ∙ ap (λ d. with_spec env c (env.load_spec (env.join d ("beacon_guard.bpf.o" ∷ []))))
          (Directory-bpf_dir env flags s.dir s.found)
      ∙ ap (with_spec env c) s.answered

  start-Collected :
      (c : Config) (o : Option Collection)
      → Collected c o
      → start env flags ≡ with_collection env c o
  unfolding with_spec
  start-Collected c o r =
      start-Specified c (some r.spec) r.specified ∙ ap (with_collection env c) r.created

  start-Hooked :
      (c : Config) (coll : Collection) (names : List String)
      → Collected c (some coll)
      → Hooked env coll attachments names
      → start env flags ≡ finish_start env c coll names
  unfolding with_collection
  start-Hooked c coll names made hooked =
      start-Collected c (some coll) made
      ∙ ap (finish_start env c coll) (Hooked-attach_all env coll hooked)

  Ends-start : {o : Start} → Ends o → start env flags ≡ o
  unfolding start with_config with_spec with_collection finish_start
  Ends-start (asked v) = if_true flags.show_version _ _ v
  Ends-start (unloadable v none_loads) = if_false flags.show_version _ _ v ∙ refused _ refl
    where
      refused :
          (r : LoadResult)
          → load_config env.decode (env.read_file flags.config_path) ≡ r
          → with_config env flags r ≡ fatal bad_config
      refused read_failed e = refl
      refused bad_json e = refl
      refused (loaded c) e =
          absurd
            (none_loads c ((load_config_iff env.decode (env.read_file flags.config_path) c).0 e))
  Ends-start (locked c r m) = start-Configured c r ∙ if_true (not env.memlock) _ _ (ap not m)
  Ends-start (unspecified c s) = start-Specified c none s
  Ends-start (uncollected c r) = start-Collected c none r
  Ends-start (unattached c coll r hooked) = start-Hooked c coll [] r hooked
  Ends-start (no_events c coll names r hooked some_of e) =
      start-Hooked c coll names r hooked
      ∙ if_false (length names == 0) _ _ (==_false (length names) some_of)
      ∙ if_false (coll.has_map "events") _ _ e
  Ends-start (runs c coll names r hooked some_of e) =
      start-Hooked c coll names r hooked
      ∙ if_false (length names == 0) _ _ (==_false (length names) some_of)
      ∙ if_true (coll.has_map "events") _ _ e

  -- How the start ends, for every end: the version is shown where it is asked for; each fatal exit
  -- comes where its step is the first to fail: no configuration loads, the memory lock stays, the
  -- specification in the directory of the flag, beside the program or "bpf" does not load, the
  -- collection is not created, no hook of the list is linked, or there is no events map; and the
  -- program runs, with the configuration that loads and the linked hooks, where all succeed. The
  -- linked hooks are those, in the order of the list, whose program is in the collection and
  -- attaches.
  pub start_iff : (o : Start) → (start env flags ≡ o) ↔ Ends o
  start_iff o = ((λ e. subst Ends e start-Ends), (λ h. Ends-start h))
