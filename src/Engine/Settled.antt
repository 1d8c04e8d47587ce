-- ===== src/Engine/Settled.antt =====
-- Each built-in rule of loader/engine.go answers its anomaly where it applies, and nothing elsewhere.
use beacon_guard.Prelude.{
  ℕ, ◌≢◌, refl, sym, ap, ◌∙◌, not, ◌&&◌, inl, inr, [], arith, lt64, quot64, neg64, length, lookup,
  bytes_eq, bytes_eq_sound, bytes_eq_refl, ltb, ltb-false, ltb-false_le, ◌==◌, if_cases, not-true,
  not-false, true-false, and_both, both_and, ==_iff, Option-cases,
}
use mathlib.Core.Path.{subst}
use mathlib.Core.List.{reverse}
use beacon_guard.Config.{Config}
use beacon_guard.Event.{Event, text_at, num_at}
use beacon_guard.Float.{Float64}
use beacon_guard.Engine.Types.{is_baseline, Profile, Baseline}
use beacon_guard.Engine.Rules.{
  bad_ports, listed, match_unexpected_binary, match_process_running_as_root,
  match_reverse_shell_port, match_dns_tunneling, match_mass_file_deletion,
  match_sensitive_file_write, mmap_alerted, match_executable_mmap, match_ptrace_attachment,
  match_beaconing_detected, match_rapid_succession, intervals, mean_of, variance_of, recent_from,
  unexpected_binary_rule, process_running_as_root_rule, reverse_shell_port_rule, dns_tunneling_rule,
  mass_file_deletion_rule, sensitive_file_write_rule, executable_mmap_rule, ptrace_attachment_rule,
  beaconing_detected_rule, rapid_succession_connections_rule,
}
use beacon_guard.Engine.Guards.{Listed, Settled, shaped, Regular}
use beacon_guard.Engine.Guards.Tests.{
  wrong_kind, right_kind, Listed-listed, is_baseline_sound, NoMmap-mmap_alerted,
  mmap_alerted-NoMmap, some-none, not-listed, intervals-gaps, length-gaps_four, recent_from-streak,
}

module _ {F : Type 0} (fl : Float64 F) (config : Config) (now : ℕ) (evt : Event)
    (p : Profile F) where
  pub match_unexpected_binary-Settled :
      (bl : Baseline F)
      → Settled fl config now evt p
          (unexpected_binary_rule config)
          (match_unexpected_binary config evt p bl)
  unfolding match_unexpected_binary
  match_unexpected_binary-Settled bl =
      let R = (unexpected_binary_rule config) in
      let S = Settled fl config now evt p R in
      let name = text_at "filename" evt.payload in
      if_cases S (not (evt.kind == 1)) _ _ (λ e f. wrong_kind evt.kind 1 e f.0)
        (λ kind.
          if_cases S (bytes_eq name []) _ _ (λ e f. f.1.0 (bytes_eq_sound name [] e))
            (λ some_name.
              if_cases S (not (is_baseline p.state)) _ _
                (λ e f. true-false (sym (ap is_baseline f.1.1) ∙ not-true _ e))
                (λ base.
                  if_cases S (not (listed name config.allowed_executables) && lt64 1 p.exec_count) _
                    _
                    (λ e.
                      let both = and_both _ _ e in
                      let named : name ≢ [] = λ q.
                        true-false
                          (sym (ap (λ t. bytes_eq t []) q ∙ bytes_eq_refl []) ∙ some_name) in
                      let unlisted : ¬ Listed name config.allowed_executables = λ l. true-false (
                        sym (Listed-listed name config.allowed_executables l)
                        ∙ not-true _ both.0) in
                      shaped fl config now evt p R _ (refl, refl, refl, refl) (omega arith)
                        (
                          right_kind evt.kind 1 kind,
                          (named, is_baseline_sound p.state (not-false _ base), unlisted, both.1),
                        ))
                    (λ e f. true-false (
                      sym (both_and _ _ (not-listed name config.allowed_executables f.1.2) f.1.3)
                      ∙ e)))))

  pub match_process_running_as_root-Settled :
      (bl : Baseline F)
      → Settled fl config now evt p process_running_as_root_rule
          (match_process_running_as_root evt p bl)
  unfolding match_process_running_as_root
  match_process_running_as_root-Settled bl =
      let R = process_running_as_root_rule in
      let S = Settled fl config now evt p R in
      if_cases S (not (evt.kind == 1)) _ _ (λ e f. wrong_kind evt.kind 1 e f.0)
        (λ kind.
          if_cases S (evt.uid == 0 && lt64 p.exec_count 3) _ _
            (λ e.
              let both = and_both _ _ e in
              shaped fl config now evt p R _ (refl, refl, refl, refl) (omega arith)
                (right_kind evt.kind 1 kind, ((==_iff evt.uid 0).0 both.0, both.1)))
            (λ e f. true-false (sym (both_and _ _ ((==_iff evt.uid 0).1 f.1.0) f.1.1) ∙ e)))

  pub match_reverse_shell_port-Settled :
      (bl : Baseline F)
      → Settled fl config now evt p reverse_shell_port_rule (match_reverse_shell_port evt p bl)
  unfolding match_reverse_shell_port
  match_reverse_shell_port-Settled bl =
      let R = reverse_shell_port_rule in
      let S = Settled fl config now evt p R in
      if_cases S (not (evt.kind == 3)) _ _ (λ e f. wrong_kind evt.kind 3 e f.0)
        (λ kind. elim (Option-cases (lookup (num_at "port" evt.payload) bad_ports)) [
          | inl e ↦ rw e (λ f. f.1 e)
          | inr (reason, e) ↦ rw e (
              shaped fl config now evt p R _ (refl, refl, refl, refl) (omega arith)
                (right_kind evt.kind 3 kind, λ q. some-none reason (sym e ∙ q)))
        ])

  pub match_dns_tunneling-Settled :
      (bl : Baseline F)
      → Settled fl config now evt p dns_tunneling_rule (match_dns_tunneling evt p bl)
  unfolding match_dns_tunneling
  match_dns_tunneling-Settled bl =
      let R = dns_tunneling_rule in
      let S = Settled fl config now evt p R in
      let port = num_at "port" evt.payload in
      let ret = num_at "ret" evt.payload in
      if_cases S (not (evt.kind == 3)) _ _ (λ e f. wrong_kind evt.kind 3 e f.0)
        (λ kind.
          if_cases S (not (port == 53)) _ _ (λ e f. wrong_kind port 53 e f.1.0)
            (λ dns.
              if_cases S (ret == 1) _ _
                (λ e.
                  shaped fl config now evt p R _ (refl, refl, refl, refl) (omega arith)
                    (right_kind evt.kind 3 kind, (right_kind port 53 dns, (==_iff ret 1).0 e)))
                (λ e f. true-false (sym ((==_iff ret 1).1 f.1.1) ∙ e))))

  pub match_mass_file_deletion-Settled :
      (bl : Baseline F)
      → Settled fl config now evt p mass_file_deletion_rule (match_mass_file_deletion evt p bl)
  unfolding match_mass_file_deletion
  match_mass_file_deletion-Settled bl =
      let R = mass_file_deletion_rule in
      let S = Settled fl config now evt p R in
      if_cases S (not (evt.kind == 2)) _ _ (λ e f. wrong_kind evt.kind 2 e f.0)
        (λ kind.
          if_cases S (not (evt.ret == neg64 2)) _ _ (λ e f. wrong_kind evt.ret (neg64 2) e f.1.0)
            (λ ret.
              if_cases S (lt64 p.file_write_count 20) _ _ (λ e f. true-false (sym e ∙ f.1.1))
                (λ e.
                  shaped fl config now evt p R _ (refl, refl, refl, refl) (omega arith)
                    (right_kind evt.kind 2 kind, (right_kind evt.ret (neg64 2) ret, e)))))

  pub match_sensitive_file_write-Settled :
      (bl : Baseline F)
      → Settled fl config now evt p sensitive_file_write_rule (match_sensitive_file_write evt p bl)
  unfolding match_sensitive_file_write
  match_sensitive_file_write-Settled bl =
      let R = sensitive_file_write_rule in
      let S = Settled fl config now evt p R in
      let ret = num_at "ret" evt.payload in
      if_cases S (not (evt.kind == 2)) _ _ (λ e f. wrong_kind evt.kind 2 e f.0)
        (λ kind.
          if_cases S (ret == neg64 1) _ _
            (λ e.
              shaped fl config now evt p R _ (refl, refl, refl, refl) (omega arith)
                (right_kind evt.kind 2 kind, (==_iff ret (neg64 1)).0 e))
            (λ e f. true-false (sym ((==_iff ret (neg64 1)).1 f.1) ∙ e)))

  pub match_executable_mmap-Settled :
      (bl : Baseline F)
      → Settled fl config now evt p executable_mmap_rule (match_executable_mmap evt p bl)
  unfolding match_executable_mmap
  match_executable_mmap-Settled bl =
      let R = executable_mmap_rule in
      let S = Settled fl config now evt p R in
      if_cases S (not (evt.kind == 5)) _ _ (λ e f. wrong_kind evt.kind 5 e f.0)
        (λ kind.
          if_cases S (lt64 p.suspicion_score 50) _ _ (λ e f. true-false (sym e ∙ f.1.0))
            (λ high.
              if_cases S (mmap_alerted p.anomalies) _ _
                (λ e f. true-false (sym e ∙ NoMmap-mmap_alerted p.anomalies f.1.1))
                (λ e.
                  shaped fl config now evt p R _ (refl, refl, refl, refl) (omega arith)
                    (right_kind evt.kind 5 kind, (high, mmap_alerted-NoMmap p.anomalies e)))))

  pub match_ptrace_attachment-Settled :
      (bl : Baseline F)
      → Settled fl config now evt p ptrace_attachment_rule (match_ptrace_attachment evt p bl)
  unfolding match_ptrace_attachment
  match_ptrace_attachment-Settled bl =
      let R = ptrace_attachment_rule in
      let S = Settled fl config now evt p R in
      if_cases S (not (evt.kind == 8)) _ _ (λ e f. wrong_kind evt.kind 8 e f.0)
        (λ kind.
          shaped fl config now evt p R _ (refl, refl, refl, refl) (omega arith)
            (right_kind evt.kind 8 kind, tt))

  pub match_beaconing_detected-Settled :
      (bl : Baseline F)
      → Settled fl config now evt p
          (beaconing_detected_rule fl)
          (match_beaconing_detected fl evt p bl)
  unfolding match_beaconing_detected mean_of variance_of
  match_beaconing_detected-Settled bl =
      let R = (beaconing_detected_rule fl) in
      let S = Settled fl config now evt p R in
      let ivs = intervals fl p.connections in
      let same = intervals-gaps fl p.connections in
      if_cases S (not (evt.kind == 3)) _ _ (λ e f. wrong_kind evt.kind 3 e f.0)
        (λ kind.
          if_cases S (ltb (length p.connections) 5) _ _
            (λ e f. true-false (sym e ∙ ltb-false (length p.connections) 5 f.1.0))
            (λ five.
              if_cases S (ltb (length ivs) 3) _ _
                (λ e f.
                  let many = length-gaps_four fl p.connections f.1.0 in
                  true-false
                    (sym e ∙ ltb-false (length ivs) 3 (omega (arith, many, ap length same))))
                (λ three.
                  if_cases S
                    (fl.lt (fl.literal 1 1) (mean_of fl ivs)
                      && fl.lt (variance_of fl (mean_of fl ivs) ivs)
                          (fl.mul (mean_of fl ivs) (fl.literal 1 5)))
                    _ _
                    (λ e.
                      shaped fl config now evt p R _ (refl, refl, refl, refl) (omega arith)
                        (
                          right_kind evt.kind 3 kind,
                          (
                            ltb-false_le (length p.connections) 5 five,
                            subst (Regular fl) same (and_both _ _ e),
                          ),
                        ))
                    (λ e f.
                      let regular = subst (Regular fl) (sym same) f.1.1 in
                      true-false (sym (both_and _ _ regular.0 regular.1) ∙ e)))))

  pub match_rapid_succession-Settled :
      (bl : Baseline F)
      → Settled fl config now evt p
          (rapid_succession_connections_rule fl config now)
          (match_rapid_succession fl config now evt p bl)
  unfolding match_rapid_succession
  match_rapid_succession-Settled bl =
      let R = (rapid_succession_connections_rule fl config now) in
      let S = Settled fl config now evt p R in
      let recent = recent_from fl now (reverse p.connections) in
      let limit = quot64 config.max_connections_per_min 12 in
      let same = recent_from-streak fl now (reverse p.connections) in
      if_cases S (not (evt.kind == 3)) _ _ (λ e f. wrong_kind evt.kind 3 e f.0)
        (λ kind.
          if_cases S (ltb (length p.connections) 10) _ _
            (λ e f. true-false (sym e ∙ ltb-false (length p.connections) 10 f.1.0))
            (λ ten.
              if_cases S (not (lt64 recent limit)) _ _
                (λ e.
                  shaped fl config now evt p R _ (refl, refl, refl, refl) (omega arith)
                    (
                      right_kind evt.kind 3 kind,
                      (
                        ltb-false_le (length p.connections) 10 ten,
                        sym (ap (λ n. lt64 n limit) same) ∙ not-true _ e,
                      ),
                    ))
                (λ e f. true-false (sym (not-false _ e) ∙ ap (λ n. lt64 n limit) same ∙ f.1.1))))
