-- ===== src/System/Drains.antt =====
-- Alerts that wait in the channel reach the server of loader/api_server.go, whatever else runs.
use mathlib.Core.Path.{subst}
use mathlib.Core.List.{append_assoc, append-nil}
use beacon_guard.Prelude.{
  ℕ, ◌+◌, ◌≤◌, ◌≡◌, refl, sym, ap, ◌∙◌, Bool, ◌⊎◌, inl, inr, List, [], ◌∷◌, ◌++◌, Option, none,
  some, Bytes, arith, length, length-append, take, drop, take-append-drop, split_lt,
}
use beacon_guard.Config.{Config, Fields}
use beacon_guard.Event.{ok}
use beacon_guard.Float.{Float64}
use beacon_guard.Channel.{try_send-room, try_send-full}
use beacon_guard.Engine.Types.{Anomaly}
use beacon_guard.Engine.{analyze}
use beacon_guard.Processor.{Alert, Processor, Input, alert_capacity, alert_of, process_event, round}
use beacon_guard.Processor.Monitor.{sent}
use beacon_guard.Processor.Rounds.{round_cases}
use beacon_guard.Processor.Simulation.{respond-chan}
use beacon_guard.Server.{consume}
use beacon_guard.System.{
  System, deliver, request, Step, processed, delivered, requested, connected, written, disconnected,
  Reach, here, next, given_after, given,
}

-- What the first list of two that make up a whole holds, if it is long enough.
append-prefix {ℓ} :
    {A : Type ℓ} (xs ys zs more : List A)
    → xs ++ ys ≡ zs ++ more
    → length zs ≤ length xs
    → (rest : List A) × (xs ≡ zs ++ rest)
append-prefix xs ys [] more e h = (xs, refl)
append-prefix [] ys (z ∷ zs) more e h = absurd (omega arith)
append-prefix (x ∷ xs) ys (z ∷ zs) more e h =
    let (rest, p) = append-prefix xs ys zs more (cc) (omega arith) in (rest, cc)

module _ {F : Type 0} where
  -- A channel holds what it held before, and newer alerts after it.
  abbrev Extends : List (Alert F) → List (Alert F) → Type 0
  Extends old queue = (more : List (Alert F)) × (queue ≡ old ++ more)

  sent-Extends :
      (now : ℕ) (o : Option (Anomaly F)) (queue : List (Alert F)) → Extends queue (sent now o queue)
  sent-Extends now none queue = ([], sym (append-nil queue))
  sent-Extends now (some a) queue = elim (split_lt (length queue) alert_capacity) [
    | inl room ↦ (alert_of now a ∷ [], try_send-room alert_capacity _ queue room)
    | inr full ↦ ([], try_send-full alert_capacity _ queue full ∙ sym (append-nil queue))
  ]

module _ {F : Type 0} (fl : Float64 F) (found : ℕ → Bool) where
  round-Extends :
      (config : Config) (i : Input) (w w' : Processor F)
      → round fl found config i i.sample w ≡ ok w'
      → Extends w.alert_chan w'.alert_chan
  unfolding process_event
  round-Extends config i w w' =
      let same : Extends w.alert_chan w.alert_chan = ([], sym (append-nil w.alert_chan)) in
      round_cases fl found (λ (v : Processor F). Extends w.alert_chan v.alert_chan) config i
        i.sample w w' same same
        (λ evt.
          let (a, e) = analyze fl config i.clock evt w.engine in
          subst (Extends w.alert_chan) (sym (respond-chan fl found config i.alerted a _))
            (sent-Extends i.alerted a w.alert_chan))

module _ {F : Type 0} (fl : Float64 F) (found : ℕ → Bool) (message : Alert F → Bytes)
    (decode : Bytes → Option Fields) where
  -- The passes of the consumer.
  abbrev passes_after : {s t : System F} → ℕ → Step fl found message decode s t → ℕ
  passes_after n (delivered s) = n + 1
  passes_after n _ = n

  abbrev pub passes : {s t : System F} → Reach fl found message decode s t → ℕ
  passes here = 0
  passes (next r step) = passes_after (passes r) step

  -- From a state with `waiting` in the channel, after `n` passes that handed over `alerts`.
  record Draining (waiting : List (Alert F)) (n : ℕ) (alerts : List (Alert F)) (t : System F)
      : Type 0 where
    more : List (Alert F)
    in_order : alerts ++ t.processor.alert_chan ≡ waiting ++ more
    progress : (n ≤ length alerts) ⊎ (length waiting ≤ length alerts)

  deliver-chan :
      (s : System F) → (deliver message s).processor.alert_chan ≡ drop 1 s.processor.alert_chan
  unfolding deliver consume
  deliver-chan s = rest s.processor.alert_chan
    where
      rest : (queue : List (Alert F)) → (consume message queue s.server).0 ≡ drop 1 queue
      rest [] = refl
      rest (a ∷ queue) = refl

  passed :
      (waiting alerts more : List (Alert F)) (n : ℕ) (queue : List (Alert F))
      → alerts ++ queue ≡ waiting ++ more
      → (n ≤ length alerts) ⊎ (length waiting ≤ length alerts)
      → (n + 1 ≤ length (alerts ++ take 1 queue))
        ⊎ (length waiting ≤ length (alerts ++ take 1 queue))
  passed waiting alerts more n [] e p =
      let whole = ap length e in
      inr (omega (arith, whole, length-append alerts [], length-append waiting more))
  passed waiting alerts more n (a ∷ queue) e p = elim p [
    | inl early ↦ inl (omega (arith, early, length-append alerts (a ∷ [])))
    | inr all ↦ inr (omega (arith, all, length-append alerts (a ∷ [])))
  ]

  Step-Draining :
      (waiting : List (Alert F)) (n : ℕ) (alerts : List (Alert F)) {s t : System F}
      (step : Step fl found message decode s t)
      → Draining waiting n alerts s
      → Draining waiting (passes_after n step) (given_after fl found message decode alerts step) t
  unfolding request
  Step-Draining waiting n alerts (processed s i w e) d =
      let (more, p) = round-Extends fl found s.config i s.processor w e in
      record {
        more = d.more ++ more;
        in_order =
            ap (◌++◌ alerts) p
            ∙ sym (append_assoc alerts s.processor.alert_chan more)
            ∙ ap (λ l. l ++ more) d.in_order
            ∙ append_assoc waiting d.more more;
        progress = d.progress;
      }
  Step-Draining waiting n alerts (delivered s) d =
      let queue = s.processor.alert_chan in
      record {
        more = d.more;
        in_order =
            ap (◌++◌ (alerts ++ take 1 queue)) (deliver-chan s)
            ∙ append_assoc alerts (take 1 queue) (drop 1 queue)
            ∙ ap (◌++◌ alerts) (take-append-drop 1 queue)
            ∙ d.in_order;
        progress = passed waiting alerts d.more n queue d.in_order d.progress;
      }
  Step-Draining waiting n alerts (requested s path method body) d = record {
    more = d.more;
    in_order = d.in_order;
    progress = d.progress;
  }
  Step-Draining waiting n alerts (connected s c new) d = record {
    more = d.more;
    in_order = d.in_order;
    progress = d.progress;
  }
  Step-Draining waiting n alerts (written s c) d = record {
    more = d.more;
    in_order = d.in_order;
    progress = d.progress;
  }
  Step-Draining waiting n alerts (disconnected s c) d = record {
    more = d.more;
    in_order = d.in_order;
    progress = d.progress;
  }

  Reach-Draining :
      {s t : System F} (r : Reach fl found message decode s t)
      → Draining s.processor.alert_chan (passes r) (given fl found message decode r) t
  Reach-Draining {s} here = record {
    more = [];
    in_order = sym (append-nil s.processor.alert_chan);
    progress = inl (omega arith);
  }
  Reach-Draining (next r step) = Step-Draining _ _ _ step (Reach-Draining r)

  -- Every alert that waits in the channel is given to the server once the consumer has made as many
  -- passes as alerts were waiting, in their order and before any newer one, whatever the
  -- processor, the handlers and the clients do in between.
  pub waiting_given :
      {s t : System F} (r : Reach fl found message decode s t)
      → length s.processor.alert_chan ≤ passes r
      → (rest : List (Alert F)) × (given fl found message decode r ≡ s.processor.alert_chan ++ rest)
  waiting_given {s} {t} r enough =
      let d = Reach-Draining r in
      let long : length s.processor.alert_chan ≤ length (given fl found message decode r) =
        elim d.progress [ inl p ↦ omega (arith, p, enough) | inr p ↦ p ] in
      append-prefix _ t.processor.alert_chan _ d.more d.in_order long
