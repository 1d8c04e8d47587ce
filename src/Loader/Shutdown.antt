-- ===== src/Loader/Shutdown.antt =====
-- What the program of loader/main.go holds in the kernel when it ends.
use mathlib.Core.List.{append-nil, append_assoc}
use text.Mathlib.Text.{◌==◌ as str_eq}
use text.Mathlib.TextEquality.{eq_iff}
use beacon_guard.Prelude.{
  ℕ, ◌<◌, ◌≡◌, refl, ap, ◌∙◌, ==_false, true, not, List, [], ◌∷◌, ◌++◌, map, String, length,
  if_false, if_true,
}
use beacon_guard.Config.{Config}
use beacon_guard.Config.Load.{load_config_iff}
use beacon_guard.Loader.{Collection, Env, Flags, running, start}
use beacon_guard.Loader.Hooks.{Hooked-attach_all, Directory-bpf_dir}
use beacon_guard.Loader.Startup.{Ends, runs, start_iff}
use beacon_guard.Loader.Effects.{
  Ending, interrupted, server_returned, no_reader, Effect, collection_created, attached, launched,
  signalled, link_closed, collection_closed, shut_down, launch_effects, collection_effects,
  spec_effects, config_effects, main_effects, Held, nothing_held, without, held,
}

held-append : (xs ys : List Effect) (h : Held) → held (xs ++ ys) h ≡ held ys (held xs h)
held-append [] ys h = refl
held-append (x ∷ xs) ys h = held-append xs ys _

held-attached :
    (names : List String) (n : ℕ) (open_links : List String)
    → held (map attached names) (record { collections = n; open_links = open_links })
      ≡ record { collections = n; open_links = open_links ++ names }
held-attached [] n open_links = rw append-nil refl
held-attached (x ∷ names) n open_links =
    held-attached names n (open_links ++ x ∷ [])
    ∙ ap (λ l. record { collections = n; open_links = l }) (append_assoc open_links (x ∷ []) names)

held-closed :
    (names : List String) (n : ℕ)
    → held (map link_closed names) (record { collections = n; open_links = names })
      ≡ record { collections = n; open_links = [] }
held-closed [] n = refl
held-closed (x ∷ names) n =
    let own : without x (x ∷ names) ≡ names = if_true (str_eq x x) _ _ ((eq_iff x x).1 refl) in
    ap (λ l. held (map link_closed names) (record { collections = n; open_links = l })) own
    ∙ held-closed names n

module _ (env : Env) (ending : Ending) where
  launch_effects-runs :
      (coll : Collection) (linked : List String)
      → 0 < length linked
      → coll.has_map "events" ≡ true
      → launch_effects env ending coll linked ≡ launched ∷ shut_down ending linked
  unfolding launch_effects
  launch_effects-runs coll linked some_of events =
      rw (==_false (length linked) some_of, events) refl

  -- All effects of a program that comes to run.
  main_effects-running :
      (flags : Flags) (config : Config) (linked : List String)
      → Ends env flags (running config linked)
      → main_effects env ending flags
        ≡ collection_created ∷ (map attached linked ++ launched ∷ shut_down ending linked)
  unfolding main_effects config_effects spec_effects collection_effects
  main_effects-running flags config linked (runs c coll names r hooked some_of events) =
      let s = r.specified in
      let ready = s.configured in
      let all = Hooked-attach_all env coll hooked in
      if_false flags.show_version _ _ ready.not_version
      ∙ (ap (config_effects env ending flags)
            ((load_config_iff env.decode (env.read_file flags.config_path) config).1 ready.loads)
          ∙ if_false (not env.memlock) _ _ (ap not s.unlocked)
          ∙ ap
              (λ d.
                spec_effects env ending (env.load_spec (env.join d ("beacon_guard.bpf.o" ∷ []))))
              (Directory-bpf_dir env flags s.dir s.found)
          ∙ ap (spec_effects env ending) s.answered
          ∙ ap (collection_effects env ending) r.created
          ∙ ap (λ xs. collection_created ∷ (map attached xs ++ launch_effects env ending coll xs))
              all
          ∙ ap (λ es. collection_created ∷ (map attached linked ++ es))
              (launch_effects-runs coll linked some_of events))

  held-running :
      (linked : List String)
      → held
          (collection_created ∷ (map attached linked ++ launched ∷ shut_down ending linked))
          nothing_held
        ≡ held (shut_down ending linked) (record { collections = 1; open_links = linked })
  held-running linked =
      held-append (map attached linked) (launched ∷ shut_down ending linked)
        (record { collections = 1; open_links = [] })
      ∙ ap (held (launched ∷ shut_down ending linked)) (held-attached linked 1 [])

held-shut_down :
    (linked : List String)
    → held (shut_down interrupted linked) (record { collections = 1; open_links = linked })
      ≡ nothing_held
unfolding shut_down
held-shut_down linked =
    held-append (map link_closed linked) (collection_closed ∷ [])
      (record { collections = 1; open_links = linked })
    ∙ ap (held (collection_closed ∷ [])) (held-closed linked 1)

-- A program that came to run with a list of hooks has created the collection and attached exactly these
-- links, in order. Once a signal has ended it, it has closed each of them, in that order, and after them
-- the collection, and holds nothing in the kernel. Where the HTTP server returns or the ring buffer has no
-- reader, it exits with all links and the collection open.
pub main_releases :
    (env : Env) (flags : Flags) (config : Config) (linked : List String)
    → start env flags ≡ running config linked
    → (main_effects env interrupted flags
        ≡ collection_created
          ∷ (map attached linked
              ++ launched ∷ signalled ∷ (map link_closed linked ++ collection_closed ∷ [])))
      × (held (main_effects env interrupted flags) nothing_held ≡ nothing_held)
      × (held (main_effects env server_returned flags) nothing_held
          ≡ record { collections = 1; open_links = linked })
      × (held (main_effects env no_reader flags) nothing_held
          ≡ record { collections = 1; open_links = linked })
unfolding shut_down
main_releases env flags config linked h =
    let ends = (start_iff env flags (running config linked)).0 h in
    let all : (ending : Ending)
        → held (main_effects env ending flags) nothing_held
          ≡ held (shut_down ending linked) (record { collections = 1; open_links = linked }) =
      λ ending.
        ap (λ es. held es nothing_held) (main_effects-running env ending flags config linked ends)
        ∙ held-running env ending linked in
    (
      main_effects-running env interrupted flags config linked ends,
      all interrupted ∙ held-shut_down linked,
      all server_returned,
      all no_reader,
    )
