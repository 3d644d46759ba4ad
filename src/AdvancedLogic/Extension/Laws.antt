-- ===== src/AdvancedLogic/Extension/Laws.antt =====
-- Properties of `applyActionToExtension` of abstract-extension.ts.
use request_network.Base.{
  ℕ, ◌≡◌, ◌≢◌, ◌⊎◌, inl, inr, String, none, some, Option-cases, Bool-cases, Result-cases, ok, arith,
  is_some, lookup, insert, lookup-insert, eq_iff, str_eq, >>=-eq-ok, throw_if,
}
use request_network.Types.{
  Identity, ExtensionAction, ExtensionValues, ExtensionState, ExtensionStates, Request,
}
use request_network.AdvancedLogic.Extension.{
  ApplyAction, read_parameters, Extension, apply_create, apply_other, apply_action_to_extension,
}

pub ok-inj : {V : Type 0} {a b : V} → ok a ≡ ok b → b ≡ a
ok-inj h = ground arith

pub read_parameters-ok :
    (action : ExtensionAction) (property : String) {p : ExtensionValues}
    → read_parameters action property ≡ ok p
    → action.parameters ≡ some p
read_parameters-ok action property h = elim (Option-cases action.parameters) [
  | inl missing ↦ ground arith
  | inr (p, given) ↦ ground arith
]

lookup-insert_same :
    (k : String) (v : ExtensionState) (d : ExtensionStates) → lookup k (insert k v d) ≡ some v
lookup-insert_same k v d = rw (lookup-insert k k v d) (ground (arith, eq_iff k k))

lookup-insert_other :
    (k j : String) (v : ExtensionState) (d : ExtensionStates)
    → j ≢ k
    → lookup j (insert k v d) ≡ lookup j d
lookup-insert_other k j v d other = rw (lookup-insert k j v d) (ground (arith, eq_iff k j))

-- A step of an extension: it is created where the request has none, or its own action is applied to
-- the state it has.
abbrev pub Step :
    Extension → ExtensionStates → ExtensionAction → Request → Identity → ℕ → ExtensionState → Type 0
Step extension states action request signer timestamp next =
    (action.action ≡ "create")
      × (lookup action.id request.extensions ≡ none)
      × (extension.apply_creation action timestamp ≡ ok next)
    ⊎ (action.action ≢ "create")
      × ((state : ExtensionState) × (lookup action.id states ≡ some state)
          × ((apply : ApplyAction) × (extension.actions action.action ≡ some apply)
              × (apply state action request signer timestamp ≡ ok next)))

module _ (extension : Extension) (states : ExtensionStates) (action : ExtensionAction)
    (request : Request) (signer : Identity) (timestamp : ℕ) where
  apply_create-ok :
      {after : ExtensionStates}
      → apply_create extension states action request timestamp ≡ ok after
      → (next : ExtensionState) × (lookup action.id request.extensions ≡ none)
        × (extension.apply_creation action timestamp ≡ ok next)
        × (after ≡ insert action.id next states)
  unfolding apply_create
  apply_create-ok h =
      let (_, fresh, h₁) =
        >>=-eq-ok (throw_if (is_some (lookup action.id request.extensions)) _) _ h in
      let (next, created, h₂) = >>=-eq-ok (extension.apply_creation action timestamp) _ h₁ in
      (next, ground arith, created, ground arith)

  apply_other-ok :
      {after : ExtensionStates}
      → apply_other extension states action request signer timestamp ≡ ok after
      → (state : ExtensionState) × (lookup action.id states ≡ some state)
        × ((apply : ApplyAction) × (extension.actions action.action ≡ some apply)
            × ((next : ExtensionState) × (apply state action request signer timestamp ≡ ok next)
                × (after ≡ insert action.id next states)))
  unfolding apply_other
  apply_other-ok h = elim (Option-cases (lookup action.id states)) [
    | inl missing ↦ ground arith
    | inr (state, found) ↦ elim (Option-cases (extension.actions action.action)) [
      | inl unknown ↦ ground arith
      | inr (apply, supported) ↦ elim (Result-cases (apply state action request signer timestamp)) [
        | inl (next, applied) ↦ (state, found, (apply, supported, (next, applied, ground arith)))
        | inr (m, refused) ↦ ground arith
      ]
    ]
  ]

  -- An action that is applied to the extensions of a request changes the state of its own extension
  -- alone, and changes it by a step: the creation, which needs that the request had no such
  -- extension, or an action that the extension supports, on the state that it has.
  pub apply-Step :
      {after : ExtensionStates}
      → apply_action_to_extension extension states action request signer timestamp ≡ ok after
      → (next : ExtensionState) × Step extension states action request signer timestamp next
        × (lookup action.id after ≡ some next)
        × ((j : String) → j ≢ action.id → lookup j after ≡ lookup j states)
  unfolding apply_action_to_extension
  apply-Step {after} h =
      let (_, valid, h₁) = >>=-eq-ok (extension.validate request action) _ h in
      elim (Bool-cases (str_eq action.action "create")) [
        | inl creates ↦
            let (next, fresh, created, same) = apply_create-ok {after = after} (ground arith) in
            (
              next,
              inl ((eq_iff action.action "create").0 creates, fresh, created),
              rw same (lookup-insert_same action.id next states),
              λ j other. rw same (lookup-insert_other action.id j next states other),
            )
        | inr acts ↦
            let (state, found, (apply, supported, (next, applied, same))) =
              apply_other-ok {after = after} (ground arith) in
            (
              next,
              inr (
                ground (arith, eq_iff action.action "create"),
                (state, found, (apply, supported, applied)),
              ),
              rw same (lookup-insert_same action.id next states),
              λ j other. rw same (lookup-insert_other action.id j next states other),
            )
      ]
