-- ===== src/Engine/Windows.antt =====
-- The rule `rapid_succession_connections` (loader/engine.go): which connections it counts and reports.
use mathlib.Core.List.{reverse, reverse_aux, reverse-append, reverse-reverse}
use beacon_guard.Prelude.{
  ℕ, suc, ◌+◌, ◌-◌, ◌≤◌, ◌≡◌, refl, sym, ap, ◌∙◌, Bool, true, false, not, inl, inr, List, [], ◌∷◌,
  ◌++◌, Option, none, some, String, arith, length, length-append, drop, drop-append, ltb,
  ltb-false_le, lt64, quot64, ◌==◌, if_cases, Bool-cases, not-true,
}
use beacon_guard.Config.{Config}
use beacon_guard.Event.{Event}
use beacon_guard.Float.{Float64, elapsed}
use beacon_guard.Engine.Types.{
  ConnectionRecord, Detail, num, float, texts, Anomaly, Profile, Baseline,
}
use beacon_guard.Engine.Rules.{window, addresses, recent_from, match_rapid_succession}

module _ {F : Type 0} (fl : Float64 F) (now : ℕ) where
  open fl use {lt}

  -- The connection is less than five seconds old.
  abbrev pub is_recent : ConnectionRecord → Bool
  is_recent c = lt (elapsed fl c.timestamp now) (window fl)

  abbrev pub AllRecent : List ConnectionRecord → Type 0
  AllRecent [] = Unit {0}
  AllRecent (c ∷ cs) = (is_recent c ≡ true) × AllRecent cs

  -- The list is empty, or starts with a connection that is not recent.
  abbrev pub StartsOld : List ConnectionRecord → Type 0
  StartsOld [] = Unit {0}
  StartsOld (c ∷ cs) = is_recent c ≡ false

  -- Newest first: the counted connections, and those before them.
  pub record Split (newest older : List ConnectionRecord) (count : ℕ) : Type 0 where
    pub counted : length newest ≡ count
    pub recent : AllRecent newest
    pub old : StartsOld older

  recent_from-Split :
      (cs : List ConnectionRecord)
      → (newest : List ConnectionRecord) × (older : List ConnectionRecord) × (cs ≡ newest ++ older)
        × Split newest older (recent_from fl now cs)
  unfolding recent_from
  recent_from-Split [] = ([], [], refl, record { counted = refl; recent = tt; old = tt })
  recent_from-Split (c ∷ cs) = elim (Bool-cases (is_recent c)) [
    | inl e ↦
        let (newest, older, shape, s) = recent_from-Split cs in
        rw e (
          c ∷ newest,
          older,
          ap (λ l. c ∷ l) shape,
          record { counted = ap suc s.counted; recent = (e, s.recent); old = s.old },
        )
    | inr e ↦ rw e ([], c ∷ cs, refl, record { counted = refl; recent = tt; old = e })
  ]

length-reverse_aux {ℓ} :
    {A : Type ℓ} (xs ys : List A) → length (reverse_aux xs ys) ≡ length xs + length ys
length-reverse_aux [] ys = omega arith
length-reverse_aux (x ∷ xs) ys = omega (arith, length-reverse_aux xs (x ∷ ys))

-- The last elements of a list, as the first ones of its reversal.
drop-reverse {ℓ} :
    {A : Type ℓ} (newest older cs : List A)
    → reverse cs ≡ newest ++ older
    → (cs ≡ reverse older ++ reverse newest)
      × (drop (length cs - length newest) cs ≡ reverse newest)
drop-reverse newest older cs h =
    let shape : cs ≡ reverse older ++ reverse newest =
      sym (reverse-reverse cs) ∙ ap reverse h ∙ reverse-append newest older in
    let n = length-reverse_aux newest [] in
    let cut : length cs - length newest ≡ length (reverse older) + 0 =
      omega (arith, ap length shape, length-append (reverse older) (reverse newest), n) in
    (
      shape,
      ap (λ k. drop k cs) cut
          ∙ ap (drop (length (reverse older) + 0)) shape
          ∙ drop-append (reverse older) (reverse newest) 0,
    )

module _ {F : Type 0} (fl : Float64 F) where
  abbrev details_of : Option (Anomaly F) → List (String × Detail F)
  details_of none = []
  details_of (some a) = a.details

  -- What a match of the rule says, for the number of recent connections.
  record Rapid (config : Config) (evt : Event) (p : Profile F) (recent : ℕ) (a : Anomaly F)
      : Type 0 where
    kinded : evt.kind ≡ 3
    enough : 10 ≤ length p.connections
    frequent : lt64 recent (quot64 config.max_connections_per_min 12) ≡ false
    details :
        a.details
        ≡ ("count", num recent)
          ∷ ("window_sec", float (window fl))
          ∷ ("ips", texts (addresses (drop (length p.connections - recent) p.connections)))
          ∷ []

  match_rapid_succession-Rapid :
      (config : Config) (now : ℕ) (evt : Event) (p : Profile F) (bl : Baseline F) (a : Anomaly F)
      → match_rapid_succession fl config now evt p bl ≡ some a
      → Rapid config evt p (recent_from fl now (reverse p.connections)) a
  unfolding match_rapid_succession
  match_rapid_succession-Rapid config now evt p bl a =
      let recent = recent_from fl now (reverse p.connections) in
      let Goal : Option (Anomaly F) → Type 0 = λ o. o ≡ some a → Rapid config evt p recent a in
      if_cases Goal (not (evt.kind == 3)) _ _ (λ _ h. cc)
        (λ kind.
          if_cases Goal (ltb (length p.connections) 10) _ _ (λ _ h. cc)
            (λ ten.
              if_cases Goal (not (lt64 recent (quot64 config.max_connections_per_min 12))) _ _
                (λ often h. record {
                  kinded = ground (arith, kind);
                  enough = ltb-false_le (length p.connections) 10 ten;
                  frequent = not-true _ often;
                  details = sym (ap details_of h);
                })
                (λ _ h. cc)))

  -- A match of the rule splits the connections of the process: the newest ones are all less than
  -- five seconds old, and the one before them, if any, is not. There are 10 connections at least, the number of the newest is at least a twelfth
  -- of the limit per minute, and the anomaly reports this number and the addresses of exactly these.
  pub rapid_window :
      (config : Config) (now : ℕ) (evt : Event) (p : Profile F) (bl : Baseline F) (a : Anomaly F)
      → match_rapid_succession fl config now evt p bl ≡ some a
      → (newest : List ConnectionRecord) × (older : List ConnectionRecord) × (p.connections
          ≡ reverse older ++ reverse newest)
        × AllRecent fl now newest
        × StartsOld fl now older
        × (10 ≤ length p.connections)
        × (lt64 (length newest) (quot64 config.max_connections_per_min 12) ≡ false)
        × (a.details
            ≡ ("count", num (length newest))
              ∷ ("window_sec", float (window fl))
              ∷ ("ips", texts (addresses (reverse newest)))
              ∷ [])
  rapid_window config now evt p bl a h =
      let r = match_rapid_succession-Rapid config now evt p bl a h in
      let (newest, older, shape, s) = recent_from-Split fl now (reverse p.connections) in
      let (whole, cut) = drop-reverse newest older p.connections shape in
      (
        newest,
        older,
        whole,
        s.recent,
        s.old,
        r.enough,
        rw s.counted r.frequent,
        rw (sym cut, s.counted) r.details,
      )
