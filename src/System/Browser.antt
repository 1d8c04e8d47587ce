-- ===== src/System/Browser.antt =====
-- What a browser reads of the event stream (loader/api_server.go, `handleSSE`), while all parts of the
-- program run.
use mathlib.Core.Path.{subst}
use mathlib.Core.List.{append-nil}
use beacon_guard.Prelude.{
  ℕ, suc, ◌<◌, ◌≡◌, refl, sym, ap, ◌∙◌, ◌⊎◌, inl, inr, Bool, List, [], ◌∷◌, ◌++◌, map, take, length,
  Option, some, Bytes, arith, lookup, concat, or_zero, ◌==◌, if◌then◌else◌, Bool-cases, IsSublist,
  skip, keep,
}
use beacon_guard.Config.{Config, Fields}
use beacon_guard.Float.{Float64}
use beacon_guard.Channel.Carries.{Carries}
use beacon_guard.Processor.{Alert}
use beacon_guard.Server.{client_capacity}
use beacon_guard.Server.OneLine.{OneLine}
use beacon_guard.Server.Message.{message_of, json_text, fprintf}
use beacon_guard.Server.Frames.{new_reader, read_all}
use beacon_guard.Server.Framing.{Plain, written_text, stream_read}
use beacon_guard.System.{
  System, new_system, Step, processed, delivered, requested, connected, written, disconnected,
  Reach, here, next,
}
use beacon_guard.System.Streams.{offered, offered_after, taken, Reach-Carries}

module _ {A : Type 0} where
  sublist_all : (xs : List A) → IsSublist xs xs
  sublist_all [] = IsSublist.done
  sublist_all (x ∷ xs) = keep x (sublist_all xs)

module _ {A : Type 0} (f : A → Bytes) where
  map-snoc : (xs ys : List A) → map f (xs ++ ys) ≡ map f xs ++ map f ys
  map-snoc [] ys = refl
  map-snoc (x ∷ xs) ys = ap (λ r. f x ∷ r) (map-snoc xs ys)

  length-map : (xs : List A) → length (map f xs) ≡ length xs
  length-map [] = refl
  length-map (x ∷ xs) = ap suc (length-map xs)

  -- What is left of the images is the images of what is left.
  sublist-map :
      (ys : List Bytes) (xs : List A)
      → IsSublist ys (map f xs)
      → (zs : List A) × (map f zs ≡ ys) × IsSublist zs xs
  sublist-map ys [] IsSublist.done = ([], refl, IsSublist.done)
  sublist-map ys (x ∷ xs) (skip y h) = let (zs, e, s) = sublist-map ys xs h in (zs, e, skip x s)
  sublist-map (z ∷ ys) (x ∷ xs) (keep y h) =
      let (zs, e, s) = sublist-map ys xs h in (x ∷ zs, ap (λ r. f x ∷ r) e, keep x s)

module _ {F : Type 0} (fl : Float64 F) (found : ℕ → Bool) (message : Alert F → Bytes)
    (decode : Bytes → Option Fields) (c : ℕ) where
  -- The alerts that the server was given since a client last connected on a channel.
  abbrev since_after :
      {s t : System F} → List (Alert F) → Step fl found message decode s t → List (Alert F)
  since_after alerts (delivered s) = alerts ++ take 1 s.processor.alert_chan
  since_after alerts (connected s k new) = if k == c then [] else alerts
  since_after alerts _ = alerts

  abbrev pub given_since : {s t : System F} → Reach fl found message decode s t → List (Alert F)
  given_since here = []
  given_since (next r step) = since_after (given_since r) step

  offered_after-since :
      {s t : System F} (alerts : List (Alert F)) (step : Step fl found message decode s t)
      → offered_after fl found message decode c (map message alerts) step
        ≡ map message (since_after alerts step)
  offered_after-since alerts (processed s i w e) = refl
  offered_after-since alerts (delivered s) =
      sym (map-snoc message alerts (take 1 s.processor.alert_chan))
  offered_after-since alerts (requested s path method body) = refl
  offered_after-since alerts (connected s k new) = elim (Bool-cases (k == c)) [
    | inl e ↦ rw e refl
    | inr e ↦ rw e refl
  ]
  offered_after-since alerts (written s k) = refl
  offered_after-since alerts (disconnected s k) = refl

  offered-given_since :
      {s t : System F} (r : Reach fl found message decode s t)
      → offered fl found message decode c r ≡ map message (given_since r)
  offered-given_since here = refl
  offered-given_since (next r step) =
      ap (λ msgs. offered_after fl found message decode c msgs step) (offered-given_since r)
      ∙ offered_after-since (given_since r) step

module _ {F : Type 0} (float_text : F → Option Bytes) (time_text : ℕ → Bytes) where
  sublist-Plain :
      {zs xs : List (Alert F)}
      → IsSublist zs xs
      → Plain float_text time_text xs
      → Plain float_text time_text zs
  sublist-Plain IsSublist.done h = tt
  sublist-Plain (skip y s) h = sublist-Plain s h.1
  sublist-Plain (keep y s) h = (h.0, sublist-Plain s h.1)

  -- What `handleSSE` writes for the messages that it takes.
  abbrev pub written_for : (Bytes → Bytes) → List Bytes → Bytes
  written_for directives msgs = concat (map (fprintf directives) msgs)

  written_for-messages :
      (directives : Bytes → Bytes) (alerts : List (Alert F))
      → written_text float_text time_text directives alerts
        ≡ map (fprintf directives) (map (message_of float_text time_text) alerts)
  written_for-messages directives [] = refl
  written_for-messages directives (a ∷ more) =
      ap (λ r. fprintf directives (message_of float_text time_text a) ∷ r)
        (written_for-messages directives more)

  -- What a client has been sent are messages of alerts that the server was given, as a channel
  -- carries them.
  carried_alerts :
      (given : List (Alert F)) (msgs : List Bytes)
      → Carries client_capacity (map (message_of float_text time_text) given) msgs
      → (alerts : List (Alert F)) × (map (message_of float_text time_text) alerts ≡ msgs)
        × IsSublist alerts given
        × ((alerts ≡ given) ⊎ (client_capacity < length given))
  carried_alerts given msgs c = elim c.lossless [
    | inl e ↦ (given, sym e, sublist_all given, inl refl)
    | inr many ↦
        let (alerts, e, s) = sublist-map (message_of float_text time_text) msgs given c.ordered in
        (
          alerts,
          e,
          s,
          inr (omega (arith, many, length-map (message_of float_text time_text) given)),
        )
  ]

  module _ (fl : Float64 F) (found : ℕ → Bool) (decode : Bytes → Option Fields) (c : ℕ) where
    -- However the goroutines take turns: when a client has been written all that was put into its
    -- buffer, its browser has read the JSON texts of alerts that the server was given since it
    -- connected, one event for each, in order, some left out; and of all of them while there were at most 100.
    -- No message of such an alert has a `%`, and the text of a float64 has no control characters.
    pub browser_reads :
        (directives : Bytes → Bytes) (config : Config) (started built : ℕ) {s : System F}
        (r : Reach fl found
          (message_of float_text time_text)
          decode
          (new_system fl found config started built)
          s)
        → lookup c s.server.clients ≡ some []
        → ((x : F) → OneLine (or_zero [] (float_text x)))
        → Plain float_text time_text
            (given_since fl found (message_of float_text time_text) decode c r)
        → (alerts : List (Alert F)) × (read_all new_reader
              (written_for directives (taken fl found (message_of float_text time_text) decode c r))
            ≡ record new_reader { events = map (json_text float_text time_text) alerts })
          × IsSublist alerts (given_since fl found (message_of float_text time_text) decode c r)
          × ((alerts ≡ given_since fl found (message_of float_text time_text) decode c r)
              ⊎ (client_capacity
                  < length (given_since fl found (message_of float_text time_text) decode c r)))
    browser_reads directives config started built r drained h plain =
        let message = message_of float_text time_text in
        let given = given_since fl found message decode c r in
        let msgs = taken fl found message decode c r in
        let carried : Carries client_capacity (map message given) msgs =
          subst (λ sent. Carries client_capacity sent msgs)
            (offered-given_since fl found message decode c r)
            (subst (Carries client_capacity (offered fl found message decode c r)) (append-nil msgs)
              (Reach-Carries fl found message decode c config started built r [] drained)) in
        let (alerts, e, s, all) = carried_alerts given msgs carried in
        let written = written_for-messages directives alerts ∙ ap (map (fprintf directives)) e in
        (
          alerts,
          ap (λ ts. read_all new_reader (concat ts)) (sym written)
              ∙ stream_read float_text time_text directives alerts h (sublist-Plain s plain),
          s,
          all,
        )
