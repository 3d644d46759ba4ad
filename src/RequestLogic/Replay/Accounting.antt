-- ===== src/RequestLogic/Replay/Accounting.antt =====
-- The actions of a replay against the events and the ignored transactions
-- (`computeRequestFromTransactions` of request-logic.ts).
use mathlib.Core.List.{append-nil, append_assoc}
use request_network.Base.{
  err, String, ◌+◌, ◌≡◌, refl, sym, ◌∙◌, Option, none, some, List, [], ◌∷◌, ◌++◌, length,
  length-append, ok, arith, Result-cases, inl, inr, filter, ap,
}
use request_network.Types.{Event, Request, ConfirmedAction, IgnoredTransaction}
use request_network.RequestLogic.Library.{Library}
use request_network.RequestLogic.Actions.Create.{generate_create_event}
use request_network.RequestLogic.Core.{AdvancedLogic, apply_action_to_request}
use request_network.RequestLogic.Applied.{apply_update, apply_creation}
use request_network.RequestLogic.Replay.{
  is_confirmed, is_pending, replay, compute_request_from_transactions,
}

-- The events of a request, and none where there is no request.
abbrev pub events_of : Option Request → List Event
events_of none = []
events_of (some r) = r.events

module _ {N : Type 0} (lib : Library N) (advanced : Option AdvancedLogic) where
  -- The event that an action leaves: of its name and at its time.
  abbrev pub IsEventOf : ConfirmedAction → Event → Type 0
  IsEventOf c e = (e.name ≡ c.action.content.name) × (e.timestamp ≡ c.timestamp)

  -- A run over actions, in their order: one that is applied leaves an event, and one that throws is
  -- reported as it is, with the message that it throws, and leaves the state as it was.
  pub data Runs
      : Option Request
        → List ConfirmedAction
        → Option Request
        → List Event
        → List IgnoredTransaction
        → Type 0 where
    stop : (state : Option Request) → Runs state [] state [] []
    applied :
        (state final : Option Request) (c : ConfirmedAction) (l : List ConfirmedAction)
        (r : Request) (e : Event) (new : List Event) (ignored : List IgnoredTransaction)
        → apply_action_to_request lib advanced state c.action c.timestamp ≡ ok r
        → r.events ≡ events_of state ++ e ∷ []
        → IsEventOf c e
        → Runs (some r) l final new ignored
        → Runs state (c ∷ l) final (e ∷ new) ignored
    refused :
        (state final : Option Request) (c : ConfirmedAction) (l : List ConfirmedAction) (m : String)
        (new : List Event) (ignored : List IgnoredTransaction)
        → apply_action_to_request lib advanced state c.action c.timestamp ≡ err m
        → Runs state l final new ignored
        → Runs state (c ∷ l) final new (record { transaction = c; reason = m } ∷ ignored)

  apply-event :
      (state : Option Request) (c : ConfirmedAction) {r' : Request}
      → apply_action_to_request lib advanced state c.action c.timestamp ≡ ok r'
      → (e : Event) × (r'.events ≡ events_of state ++ e ∷ []) × IsEventOf c e
  unfolding generate_create_event
  apply-event none c h =
      let (m, name, created, (states, same)) = apply_creation lib advanced c.action c.timestamp h in
      (
        generate_create_event c.action c.timestamp created.signer,
        rw same created.events,
        (sym name, refl),
      )
  apply-event (some r) c h =
      let (m, checked, effect, (states, same)) =
        apply_update lib advanced c.action c.timestamp r h in
      (effect.event, rw same effect.events, (effect.recorded.name, effect.recorded.timestamp))

  replay-Runs :
      (l : List ConfirmedAction) (state : Option Request)
      → (new : List Event) × Runs state l
          (replay lib advanced state l).0
          new
          (replay lib advanced state l).1
  unfolding replay
  replay-Runs [] state = ([], stop state)
  replay-Runs (c ∷ l) state =
      elim (Result-cases (apply_action_to_request lib advanced state c.action c.timestamp)) [
        | inl (r, e) ↦
            let (event, one, told) = apply-event state c e in
            let (new, runs) = replay-Runs l (some r) in
            rw e (event ∷ new, applied state _ c l r event new _ e one told runs)
        | inr (m, e) ↦
            let (new, runs) = replay-Runs l state in rw e (new, refused state _ c l m new _ e runs)
      ]

  -- What a run adds to the events of the request, and how many actions it does not ignore.
  Runs-events :
      {state final : Option Request} {l : List ConfirmedAction} {new : List Event}
      {ignored : List IgnoredTransaction}
      → Runs state l final new ignored
      → (events_of final ≡ events_of state ++ new) × (length new + length ignored ≡ length l)
  Runs-events (stop state) = (sym (append-nil _), refl)
  Runs-events (applied state final c l r e new ignored h one told runs) =
      let (added, count) = Runs-events runs in
      (
        added
            ∙ (ap (λ (x : List Event). x ++ new) one ∙ append_assoc (events_of state) (e ∷ []) new),
        omega (arith, count),
      )
  Runs-events (refused state final c l m new ignored h runs) =
      let (added, count) = Runs-events runs in (added, omega (arith, count))

  -- `computeRequestFromTransactions` runs over the confirmed actions that it is given, and then from
  -- the confirmed request over the pending ones, in their order: each action either leaves an event
  -- of its name and at its time or is reported as ignored, as it is and with the message that it
  -- throws. The events of the confirmed request come first among those of the pending one, no event
  -- and no ignored transaction is left over.
  pub compute_accounting :
      (l : List ConfirmedAction)
      → let result = compute_request_from_transactions lib advanced l in
        let confirmed = filter (λ (c : ConfirmedAction). is_confirmed c.state) l in
        let pending = filter (λ (c : ConfirmedAction). is_pending c.state) l in
        (old new : List Event) × ((first second : List IgnoredTransaction) × Runs none confirmed
            result.confirmed old first
          × Runs result.confirmed pending result.pending new second
          × (result.ignored ≡ first ++ second)
          × (events_of result.confirmed ≡ old)
          × (events_of result.pending ≡ events_of result.confirmed ++ new)
          × (length (events_of result.pending) + length result.ignored
              ≡ length confirmed + length pending))
  unfolding compute_request_from_transactions
  compute_accounting l =
      let confirmed = filter (λ (c : ConfirmedAction). is_confirmed c.state) l in
      let pending = filter (λ (c : ConfirmedAction). is_pending c.state) l in
      let first = replay lib advanced none confirmed in
      let second = replay lib advanced first.0 pending in
      let (old, runs_old) = replay-Runs confirmed none in
      let (new, runs_new) = replay-Runs pending first.0 in
      let (added_old, count_old) = Runs-events runs_old in
      let (added, count) = Runs-events runs_new in
      (
        old,
        new,
        (
          first.1,
          second.1,
          runs_old,
          runs_new,
          refl,
          added_old,
          added,
          omega (
            arith,
            count,
            count_old,
            ap (length {0}) added,
            ap (length {0}) added_old,
            length-append (events_of first.0) new,
            length-append first.1 second.1,
          ),
        ),
      )
