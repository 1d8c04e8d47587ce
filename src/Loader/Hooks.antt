-- ===== src/Loader/Hooks.antt =====
-- What loader/main.go attaches, and where it looks for the programs, described apart from its functions.
use text.Mathlib.Text.{◌==◌ as str_eq}
use text.Mathlib.TextEquality.{eq_iff}
use mathlib.Core.Path.{subst}
use beacon_guard.Prelude.{
  ◌≡◌, ◌≢◌, refl, ap, sym, ◌∙◌, ◌⊎◌, inl, inr, Bool, true, false, not, List, [], ◌∷◌, Option,
  if_cases, true-false, not-true, not-false, if_true, if_false, none, some, String,
}
use beacon_guard.Loader.{
  HookKind, tracepoint, kprobe, Attach, Collection, Env, Flags, bpf_dir, default_dir, links,
  link_by, attach_all,
}

module _ (env : Env) where
  -- What the eBPF library answers to the attachment of a hook.
  abbrev pub Answers : Attach → Bool → Type 0
  Answers a b =
      ((a.kind ≡ tracepoint) × (env.link_tracepoint a.category a.event a.name ≡ b))
      ⊎ ((a.kind ≡ kprobe) × (env.link_kprobe a.event a.name ≡ b))

  -- The names that a list of hooks leaves linked, in order: exactly those of the hooks whose program is in
  -- the collection and attaches.
  pub data Hooked (coll : Collection) : List Attach → List String → Type 0 where
    no_hooks : Hooked coll [] []
    attaches :
        {rest : List Attach} {names : List String} (a : Attach)
        → coll.has_program a.name ≡ true
        → Answers a true
        → Hooked coll rest names
        → Hooked coll (a ∷ rest) (a.name ∷ names)
    refused :
        {rest : List Attach} {names : List String} (a : Attach)
        → Answers a false
        → Hooked coll rest names
        → Hooked coll (a ∷ rest) names
    absent :
        {rest : List Attach} {names : List String} (a : Attach)
        → coll.has_program a.name ≡ false
        → Hooked coll rest names
        → Hooked coll (a ∷ rest) names

  links-Answers : (a : Attach) → Answers a (links env a)
  unfolding links link_by
  links-Answers a = go a.kind refl
    where
      go : (k : HookKind) → a.kind ≡ k → Answers a (link_by env a.kind a)
      go tracepoint e = inl (e, sym (ap (λ k. link_by env k a) e))
      go kprobe e = inr (e, sym (ap (λ k. link_by env k a) e))

  Answers-links : (a : Attach) (b : Bool) → Answers a b → links env a ≡ b
  unfolding links link_by
  Answers-links a b (inl (e, h)) = ap (λ k. link_by env k a) e ∙ h
  Answers-links a b (inr (e, h)) = ap (λ k. link_by env k a) e ∙ h

  pub attach_all-Hooked :
      (coll : Collection) (hooks : List Attach) → Hooked coll hooks (attach_all env coll hooks)
  unfolding attach_all
  attach_all-Hooked coll [] = no_hooks
  attach_all-Hooked coll (a ∷ rest) =
      let later = attach_all-Hooked coll rest in
      let answer = links-Answers a in
      if_cases (Hooked coll (a ∷ rest)) (not (coll.has_program a.name)) _ _
        (λ e. absent a (not-true (coll.has_program a.name) e) later)
        (λ e.
          if_cases (Hooked coll (a ∷ rest)) (links env a) _ _
            (λ l.
              attaches a (not-false (coll.has_program a.name) e) (subst (Answers a) l answer) later)
            (λ l. refused a (subst (Answers a) l answer) later))

  pub Hooked-attach_all :
      (coll : Collection) {hooks : List Attach} {names : List String}
      → Hooked coll hooks names
      → attach_all env coll hooks ≡ names
  unfolding attach_all
  Hooked-attach_all coll no_hooks = refl
  Hooked-attach_all coll (attaches {rest} a there l later) =
      if_false (not (coll.has_program a.name)) _ _ (ap not there)
      ∙ if_true (links env a) _ _ (Answers-links a true l)
      ∙ ap (λ names. a.name ∷ names) (Hooked-attach_all coll later)
  Hooked-attach_all coll (refused {rest} a l later) =
      if_cases (λ x. x ≡ attach_all env coll rest) (not (coll.has_program a.name)) _ _ (λ _. refl)
        (λ _. if_false (links env a) _ _ (Answers-links a false l))
      ∙ Hooked-attach_all coll later
  Hooked-attach_all coll (absent {rest} a gone later) =
      if_true (not (coll.has_program a.name)) _ _ (ap not gone) ∙ Hooked-attach_all coll later

  -- Where the programs are looked for.
  abbrev pub Directory : Flags → String → Type 0
  Directory flags dir =
      ((flags.bpf_dir ≢ "") × (dir ≡ flags.bpf_dir))
      ⊎ ((flags.bpf_dir ≡ "")
          × (((exe : String) × (env.executable ≡ some exe)
                × (dir ≡ env.join (env.dir exe) (".." ∷ "bpf" ∷ [])))
              ⊎ ((env.executable ≡ none) × (dir ≡ "bpf"))))

  pub bpf_dir-Directory : (flags : Flags) → Directory flags (bpf_dir env flags)
  unfolding bpf_dir default_dir
  bpf_dir-Directory flags =
      if_cases (Directory flags) (str_eq flags.bpf_dir "") _ _
        (λ e. inr ((eq_iff flags.bpf_dir "").0 e, standard env.executable refl))
        (λ e. inl (λ q. true-false (sym ((eq_iff flags.bpf_dir "").1 q) ∙ e), refl))
    where
      standard :
          (o : Option String)
          → env.executable ≡ o
          → ((exe : String) × (env.executable ≡ some exe)
              × (default_dir env o ≡ env.join (env.dir exe) (".." ∷ "bpf" ∷ [])))
            ⊎ ((env.executable ≡ none) × (default_dir env o ≡ "bpf"))
      standard none e = inr (e, refl)
      standard (some exe) e = inl (exe, e, refl)

  pub Directory-bpf_dir :
      (flags : Flags) (dir : String) → Directory flags dir → bpf_dir env flags ≡ dir
  unfolding bpf_dir default_dir
  Directory-bpf_dir flags dir (inl (given, same)) =
      if_cases (λ d. d ≡ dir) (str_eq flags.bpf_dir "") _ _
        (λ e. absurd (given ((eq_iff flags.bpf_dir "").0 e))) (λ _. sym same)
  Directory-bpf_dir flags dir (inr (empty, inl (exe, e, same))) =
      if_true (str_eq flags.bpf_dir "") _ _ ((eq_iff flags.bpf_dir "").1 empty)
      ∙ ap (default_dir env) e
      ∙ sym same
  Directory-bpf_dir flags dir (inr (empty, inr (e, same))) =
      if_true (str_eq flags.bpf_dir "") _ _ ((eq_iff flags.bpf_dir "").1 empty)
      ∙ ap (default_dir env) e
      ∙ sym same
