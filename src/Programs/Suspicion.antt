-- ===== src/Programs/Suspicion.antt =====
-- bpf/beacon_guard.bpf.c: what `suspicion_map` says of a process.
use native.Mathlib.Nat.{zero-add}
use beacon_guard.Prelude.{
  ℕ, suc, ◌+◌, ◌%◌, ◌/◌, ◌^◌, ◌<◌, ◌≤◌, ◌≡◌, refl, ap, ◌∙◌, ◌&&◌, List, [], ◌∷◌, Option, none, some,
  inl, inr, Bytes, arith, length, ltb, lookup, insert, lookup-insert, length-insert, or_zero, ◌==◌,
  ==_iff, if◌then◌else◌, Bool-cases, or_zero,
}
use beacon_guard.Programs.{
  Invocation, on_execve, on_execve_exit, on_openat, on_clone, on_exit, on_tcp_connect, on_udp_send,
  on_mmap, on_ptrace, invoke, run_programs,
}
use beacon_guard.Programs.Tables.{
  ProcInfo, Maps, no_maps, table_entries, update, raised_scores, add_suspicion,
}
use beacon_guard.Programs.Memory.{Call, pid_of, Result}
use beacon_guard.Programs.Files.{reset, execve, execve_exit, openat, may_write}
use beacon_guard.Programs.Network.{ntohs, to_bad_port, tcp_connect, udp_send}
use beacon_guard.Programs.Processes.{clone, exit_group, mmap_exec, ptrace}

abbrev pub score_in : ℕ → List (ℕ × ℕ) → ℕ
score_in k scores = or_zero 0 (lookup k scores)

abbrev own : ℕ → Call → ℕ → ℕ
own k c amount = if pid_of c == k then amount else 0

-- What a call adds to the suspicion of process `k`. A call that gets no memory from the ring buffer adds
-- nothing, nor does ptrace where the memory has the target at `ppid`.
unfoldable pub share : ℕ → Invocation → ℕ
share k (on_openat c filename flags (some r)) = if may_write flags then own k c 10 else 0
share k (on_tcp_connect c sk fd (some r)) = if to_bad_port sk then own k c 60 else 0
share k (on_udp_send c sk size (some r)) =
    if ntohs sk.dport == 53 && ltb 512 size then own k c 30 else 0
share k (on_mmap c prot (some r)) = if prot / 4 % 2 == 1 then own k c 20 else 0
share k (on_ptrace c target (some r)) =
    if target % 2 ^ 32 == r.header.ppid % 2 ^ 32 then 0 else own k c 50
share k _ = 0

unfoldable pub shares : ℕ → List Invocation → ℕ
unfolding share
shares k [] = 0
shares k (i ∷ more) = share k i + shares k more

update-room :
    (key value : ℕ) (m : List (ℕ × ℕ))
    → length m < table_entries
    → update key value m ≡ insert key value m
unfolding update
update-room key value m room = ground arith

-- With room in the map, both cases write the sum over the score of a process.
raised_scores-insert :
    (pid amount : ℕ) (scores : List (ℕ × ℕ)) (o : Option ℕ)
    → amount < 2 ^ 32
    → length scores < table_entries
    → raised_scores amount pid scores o ≡ insert pid ((or_zero 0 o + amount) % 2 ^ 32) scores
raised_scores-insert pid amount scores none small room =
    update-room pid amount scores room ∙ ap (λ v. insert pid v scores) (omega arith)
raised_scores-insert pid amount scores (some v) small room = refl

insert-score :
    (k pid value : ℕ) (scores : List (ℕ × ℕ))
    → score_in k (insert pid value scores) ≡ (if pid == k then value else score_in k scores)
insert-score k pid value scores =
    rw (lookup-insert pid k value scores)
      (elim (Bool-cases (pid == k)) [ inl e ↦ rw e | inr e ↦ rw e ])

raised_scores-score :
    (k pid amount : ℕ) (scores : List (ℕ × ℕ))
    → amount < 2 ^ 32
    → length scores < table_entries
    → score_in k scores < 2 ^ 32
    → score_in k (raised_scores amount pid scores (lookup pid scores))
      ≡ (score_in k scores + (if pid == k then amount else 0)) % 2 ^ 32
raised_scores-score k pid amount scores small room old =
    ap (score_in k) (raised_scores-insert pid amount scores (lookup pid scores) small room)
    ∙ insert-score k pid ((score_in pid scores + amount) % 2 ^ 32) scores
    ∙ elim (Bool-cases (pid == k)) [
      | inl e ↦ rw e (ap (λ j. (score_in j scores + amount) % 2 ^ 32) ((==_iff pid k).0 e))
      | inr e ↦ rw e (omega (arith, old))
    ]

-- What a call does to the maps: at most one new score, and an amount for process `k`. The block list and
-- the profiles are not written.
record Change (k amount : ℕ) (m : Maps) (r : Result) : Type 0 where
  returned : r.returned ≡ 0
  same_blocklist : r.maps.blocklist ≡ m.blocklist
  same_profiles : r.maps.profiles ≡ m.profiles
  grown : length r.maps.suspicion ≤ suc (length m.suspicion)
  scored : score_in k r.maps.suspicion ≡ (score_in k m.suspicion + amount) % 2 ^ 32

abbrev submitted : Option Bytes → Maps → Result
submitted sample m = record { returned = 0; sample = sample; maps = m }

module _ (k : ℕ) (m : Maps) (room : length m.suspicion < table_entries)
    (old : score_in k m.suspicion < 2 ^ 32) where
  still :
      (sample : Option Bytes) (procs : List (ℕ × ProcInfo))
      → Change k 0 m (submitted sample (record m { procs = procs }))
  still sample procs = record {
    returned = refl;
    same_blocklist = refl;
    same_profiles = refl;
    grown = omega arith;
    scored = omega (arith, old);
  }

  raises :
      (c : Call) (amount : ℕ) (sample : Option Bytes)
      → amount < 2 ^ 32
      → Change k (own k c amount) m (submitted sample (add_suspicion amount (pid_of c) m))
  unfolding add_suspicion
  raises c amount sample small = record {
    returned = refl;
    same_blocklist = refl;
    same_profiles = refl;
    grown = omega (
      arith,
      ap length (
          raised_scores-insert (pid_of c) amount m.suspicion (lookup (pid_of c) m.suspicion) small
            room),
      length-insert (pid_of c) ((score_in (pid_of c) m.suspicion + amount) % 2 ^ 32) m.suspicion,
    );
    scored = raised_scores-score k (pid_of c) amount m.suspicion small room old;
  }

  invoke-Change :
      (i : Invocation) → m.blocklist ≡ [] → m.profiles ≡ [] → Change k (share k i) m (invoke i m)
  unfolding share invoke execve execve_exit openat tcp_connect udp_send mmap_exec ptrace clone
      exit_group lookup
  invoke-Change (on_execve c f a none) b p = still none m.procs
  invoke-Change (on_execve c f a (some r)) b p = still _ m.procs
  invoke-Change (on_execve_exit c) b p =
      let unprofiled : lookup (pid_of c) m.profiles ≡ none = ap (lookup (pid_of c)) p in
      rw (unprofiled, no_reset (lookup (pid_of c) m.suspicion)) (still none m.procs)
    where
      no_reset : (o : Option ℕ) → reset (pid_of c) m o none ≡ m
      no_reset none = refl
      no_reset (some v) = refl
  invoke-Change (on_openat c f flags none) b p = still none m.procs
  invoke-Change (on_openat c f flags (some r)) b p =
      let open_to_all : lookup (pid_of c) m.blocklist ≡ none = ap (lookup (pid_of c)) b in
      elim (Bool-cases (may_write flags)) [
        | inl e ↦ rw (open_to_all, e) (raises c 10 _ (omega arith))
        | inr e ↦ rw (open_to_all, e) (still _ m.procs)
      ]
  invoke-Change (on_clone c r) b p = still _ _
  invoke-Change (on_exit c) b p = still none _
  invoke-Change (on_tcp_connect c sk fd none) b p = still none m.procs
  invoke-Change (on_tcp_connect c sk fd (some r)) b p = elim (Bool-cases (to_bad_port sk)) [
    | inl e ↦ rw e (raises c 60 _ (omega arith))
    | inr e ↦ rw e (still _ m.procs)
  ]
  invoke-Change (on_udp_send c sk size none) b p = still none m.procs
  invoke-Change (on_udp_send c sk size (some r)) b p = elim (Bool-cases (ntohs sk.dport == 53)) [
    | inl d ↦ elim (Bool-cases (ltb 512 size)) [
      | inl e ↦ rw (d, e) (raises c 30 _ (omega arith))
      | inr e ↦ rw (d, e) (still _ m.procs)
    ]
    | inr d ↦ rw d (still none m.procs)
  ]
  invoke-Change (on_mmap c prot none) b p = still none m.procs
  invoke-Change (on_mmap c prot (some r)) b p = elim (Bool-cases (prot / 4 % 2 == 1)) [
    | inl e ↦ rw e (raises c 20 _ (omega arith))
    | inr e ↦ rw e (still _ m.procs)
  ]
  invoke-Change (on_ptrace c target none) b p = still none m.procs
  invoke-Change (on_ptrace c target (some r)) b p =
      elim (Bool-cases (target % 2 ^ 32 == r.header.ppid % 2 ^ 32)) [
        | inl e ↦ rw e (still _ m.procs)
        | inr e ↦ rw e (raises c 50 _ (omega arith))
      ]

run-score :
    (k : ℕ) (calls : List Invocation) (m : Maps)
    → m.blocklist ≡ []
    → m.profiles ≡ []
    → length m.suspicion + length calls ≤ table_entries
    → score_in k m.suspicion < 2 ^ 32
    → score_in k (run_programs calls m).1.suspicion
      ≡ (score_in k m.suspicion + shares k calls) % 2 ^ 32
unfolding run_programs shares
run-score k [] m b p room old = omega (arith, old)
run-score k (i ∷ more) m b p room old =
    let change = invoke-Change k m (omega (arith, room)) old i b p in
    let m' = (invoke i m).maps in
    let rest =
      run-score k more m' (change.same_blocklist ∙ b) (change.same_profiles ∙ p)
        (omega (arith, change.grown, room)) (omega (arith, change.scored)) in
    omega (arith, rest, change.scored)

-- After any calls of the programs, at most the 65536 that the map has room for, the suspicion score
-- of a process is the sum of the shares of its calls, in 32 bits. A call has a share only where the ring
-- buffer gave it memory: 10 where it opens a file with flags that have the bit `MAY_WRITE`, 60 where it
-- connects to a bad port outside, 30 where it sends more than 512 bytes to port 53, 20 where it maps
-- memory with `PROT_EXEC`, and 50 for ptrace where the target differs from the number that the reserved
-- memory has at `ppid`. Every other call has none. No call ever resets the score.
pub run_new-score :
    (k : ℕ) (calls : List Invocation)
    → length calls ≤ table_entries
    → score_in k (run_programs calls no_maps).1.suspicion ≡ shares k calls % 2 ^ 32
unfolding lookup
run_new-score k calls room =
    run-score k calls no_maps refl refl (omega (arith, room)) (omega arith)
    ∙ ap (λ n. n % 2 ^ 32) (zero-add (shares k calls))
