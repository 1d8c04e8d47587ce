-- ===== src/Programs/Tables.antt =====
-- The maps that the programs of bpf/beacon_guard.bpf.c share.
use beacon_guard.Prelude.{
  ℕ, ◌+◌, ◌%◌, ◌^◌, ◌||◌, List, [], ◌∷◌, Option, none, some, Bytes, length, ltb, lookup, insert,
  is_some, ◌==◌, if◌then◌else◌,
}

-- `struct proc_info`.
pub record ProcInfo : Type 0 where
  pub ppid : ℕ
  pub start_time : ℕ
  pub comm : Bytes

-- The key of `procs` is the eight bytes of `struct proc_key` as a number.
pub record Maps : Type 0 where
  pub suspicion : List (ℕ × ℕ)
  pub blocklist : List (ℕ × ℕ)
  pub profiles : List (ℕ × ℕ)
  pub procs : List (ℕ × ProcInfo)

abbrev pub no_maps : Maps
no_maps = record { suspicion = []; blocklist = []; profiles = []; procs = [] }

abbrev pub table_entries : ℕ
table_entries = 65536

-- `bpf_map_update_elem`: a full map takes no new key.
unfoldable pub update : {V : Type 0} → ℕ → V → List (ℕ × V) → List (ℕ × V)
update key value m =
    if is_some (lookup key m) || ltb (length m) table_entries then insert key value m else m

-- `bpf_map_delete_elem`.
unfoldable pub delete : {V : Type 0} → ℕ → List (ℕ × V) → List (ℕ × V)
delete key [] = []
delete key ((other, value) ∷ more) =
    let rest = delete key more in if other == key then rest else (other, value) ∷ rest

abbrev pub raised_scores : ℕ → ℕ → List (ℕ × ℕ) → Option ℕ → List (ℕ × ℕ)
raised_scores amount pid scores none = update pid amount scores
raised_scores amount pid scores (some score) = insert pid ((score + amount) % 2 ^ 32) scores

-- The programs' common step on `suspicion_map`: a first score, or an addition to the old one.
unfoldable pub add_suspicion : ℕ → ℕ → Maps → Maps
unfolding update
add_suspicion amount pid m = record m {
  suspicion = raised_scores amount pid m.suspicion (lookup pid m.suspicion);
}
