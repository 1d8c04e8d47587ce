-- ===== src/Tests/Boot.antt =====
-- The start and the end of the program in an environment where all but one hook attaches.
use text.Mathlib.Text.{◌==◌ as str_eq}
use beacon_guard.Prelude.{
  ◌++◌, map, ◌≡◌, refl, ◌↔◌, true, false, not, List, [], ◌∷◌, none, some, String,
}
use beacon_guard.Config.{default_config, missing, load_config}
use beacon_guard.Loader.{Env, Flags, running, start, attach_all, links}
use beacon_guard.Loader.Effects.{
  collection_created, attached, launched, signalled, link_closed, collection_closed, interrupted,
  server_returned, no_reader, main_effects, nothing_held, held,
}
use beacon_guard.Loader.Shutdown.{main_releases}
use beacon_guard.Loader.Startup.{Ends, start_iff}

abbrev env : Env
env = record {
  executable = some "/opt/bin/beacon";
  dir = λ path. "/opt/bin";
  join = λ base parts. base;
  read_file = λ path. missing;
  decode = λ text. none;
  memlock = true;
  load_spec = λ path. some 1;
  new_collection =
      λ spec. some (record { has_program = λ name. true; has_map = λ name. str_eq name "events" });
  link_tracepoint = λ category event name. false;
  link_kprobe = λ event name. not (str_eq name "kprobe_ptrace");
}

abbrev flags : Flags
flags = record { config_path = "config.json"; bpf_dir = ""; show_version = false }

abbrev hooks : List String
hooks = "kprobe_tcp_connect" ∷ "kprobe_udp_send" ∷ "kprobe_mmap_exec" ∷ []

start_iff_example :
    (start env flags ≡ running default_config hooks) ↔ Ends env flags (running default_config hooks)
start_iff_example = start_iff env flags (running default_config hooks)

hooks_run : start env flags ≡ running default_config hooks
unfolding start load_config attach_all links
hooks_run = refl

main_releases_example :
    (main_effects env interrupted flags
      ≡ collection_created
        ∷ (map attached hooks
            ++ launched ∷ signalled ∷ (map link_closed hooks ++ collection_closed ∷ [])))
    × (held (main_effects env interrupted flags) nothing_held ≡ nothing_held)
    × (held (main_effects env server_returned flags) nothing_held
        ≡ record { collections = 1; open_links = hooks })
    × (held (main_effects env no_reader flags) nothing_held
        ≡ record { collections = 1; open_links = hooks })
main_releases_example = main_releases env flags default_config hooks hooks_run
