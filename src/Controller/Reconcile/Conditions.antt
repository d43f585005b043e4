-- ===== src/Controller/Reconcile/Conditions.antt =====
-- The conditions that a refused Service and a served one end with.
use bulb.Base.{
  ◌≡◌, refl, ap, ◌∙◌, if◌then◌else◌, true, false, List, [], ◌∷◌, Text, codes, text_discrete,
  ℕ_discrete, Option, some,
}
use bulb.Controller.Service.{Service, Condition, text_eq}
use bulb.Controller.Status.{
  condition_reconciled, condition_port_conflict, condition_invalid_service,
  condition_no_ready_endpoint, service_condition, condition_of, set_conditions,
}
use bulb.Controller.Reconcile.{no_conflict, valid_service, endpoints_found, served_conditions}

-- `meta.SetStatusCondition` replaces the condition of the type, or adds it.
abbrev pub IsSetter : (List Condition → Condition → List Condition) → Type 0
IsSetter set =
    (t : Text) (cs : List Condition) (c : Condition)
    → condition_of t (set cs c) ≡ (if text_eq c.condition_type t then some c else condition_of t cs)

-- The last condition of a type.
abbrev last_of : Text → List Condition → Option Condition → Option Condition
last_of t [] old = old
last_of t (c ∷ new) old = last_of t new (if text_eq c.condition_type t then some c else old)

-- After the conditions are set, the Service is not reconciled, and the condition of a type says why.
abbrev pub SaysWhy :
    (List Condition → Condition → List Condition)
    → Text
    → Service
    → Text
    → Text
    → List Condition
    → Type 0
SaysWhy set t svc reason message conditions =
    (cs : List Condition)
    → (condition_of condition_reconciled (set_conditions set cs conditions)
        ≡ some (service_condition svc condition_reconciled false reason message))
      × (condition_of t (set_conditions set cs conditions)
          ≡ some (service_condition svc t true reason message))

module _ (set : List Condition → Condition → List Condition) (law : IsSetter set) where
  condition_of-set_conditions :
      (t : Text) (new cs : List Condition)
      → condition_of t (set_conditions set cs new) ≡ last_of t new (condition_of t cs)
  unfolding set_conditions
  condition_of-set_conditions t [] cs = refl
  condition_of-set_conditions t (c ∷ new) cs =
      condition_of-set_conditions t new (set cs c) ∙ ap (last_of t new) (law t cs c)

  pub why_invalid :
      (svc : Service) (reason message : Text)
      → SaysWhy set condition_invalid_service svc reason message (
          service_condition svc condition_invalid_service true reason message
          ∷ service_condition svc condition_reconciled false reason message
          ∷ no_conflict svc
          ∷ endpoints_found svc
          ∷ [])
  unfolding service_condition text_discrete ℕ_discrete
  why_invalid svc reason message cs = (
    condition_of-set_conditions condition_reconciled _ cs,
    condition_of-set_conditions condition_invalid_service _ cs,
  )

  pub why_no_endpoints :
      (svc : Service) (reason message : Text)
      → SaysWhy set condition_no_ready_endpoint svc reason message (
          service_condition svc condition_no_ready_endpoint true reason message
          ∷ service_condition svc condition_reconciled false reason message
          ∷ no_conflict svc
          ∷ valid_service svc
          ∷ [])
  unfolding service_condition text_discrete ℕ_discrete
  why_no_endpoints svc reason message cs = (
    condition_of-set_conditions condition_reconciled _ cs,
    condition_of-set_conditions condition_no_ready_endpoint _ cs,
  )

  pub why_conflict :
      (svc : Service) (reason message : Text)
      → SaysWhy set condition_port_conflict svc reason message (
          service_condition svc condition_port_conflict true reason message
          ∷ service_condition svc condition_reconciled false reason message
          ∷ valid_service svc
          ∷ endpoints_found svc
          ∷ [])
  unfolding service_condition text_discrete ℕ_discrete
  why_conflict svc reason message cs = (
    condition_of-set_conditions condition_reconciled _ cs,
    condition_of-set_conditions condition_port_conflict _ cs,
  )

  -- The conditions of a Service that is served.
  pub says_reconciled :
      (svc : Service) (cs : List Condition)
      → condition_of condition_reconciled (set_conditions set cs (served_conditions svc))
        ≡ some (
            service_condition svc condition_reconciled true
              (codes "Reconciled")
              (codes "Service reconciled successfully"))
  unfolding service_condition text_discrete ℕ_discrete
  says_reconciled svc cs = condition_of-set_conditions condition_reconciled _ cs
