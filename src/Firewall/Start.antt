-- ===== src/Firewall/Start.antt =====
-- The start of the firewall agent: `Run` and `SetupWithManager` of internal/firewall/firewall.go,
-- `NewBackend` of backend.go and `NewFirewalldBackend` of firewalld.go, up to the manager. The
-- system bus, the file system and the runner of commands are parameters.
pub mod Opens
use bulb.Base.{
  if◌then◌else◌, Bool, true, false, List, [], ◌∷◌, ◌++◌, Text, codes, quoted, is_empty,
  text_discrete, ite,
}
use bulb.Base.Result.{M, Result, ok, err, wrap, wrapping, continue_with, return}
use bulb.Api.{Labels}
use bulb.Firewall.Config.{AgentConfig, load_config}
use bulb.Firewall.Policy.{FirewallPolicy}
use bulb.Firewall.Backend
use bulb.Firewall.Backend.{Backend, ZoneClient}
use bulb.Firewall.Firewalld.{World, firewalld_backend}
use bulb.Firewall.StateFile.{FileSystem, JsonCodec, file_state_store}
use bulb.Firewall.Commands.{CommandRunner}
use bulb.Firewall.Iptables.{iptables_backend}
use bulb.Firewall.Nftables.{nftables_backend}

abbrev text_is : Text → Text → Bool
text_is a b = ite (text_discrete a b) true false

-- The reconciler that the manager is given.
pub record AgentReconciler (S : Type 0) : Type 0 where
  pub node_name : Text
  pub backend : Backend S
  pub policy : FirewallPolicy
  pub dry_run : Bool

-- `NewDryRunBackend`, where the configuration asks for it.
abbrev pub chosen : {S : Type 0} → Bool → Backend S → Backend S
chosen dry backend = if dry then Backend.dry_run backend else backend

unfoldable pub setup_with_manager : {S : Type 0} → AgentReconciler S → M S (AgentReconciler S)
setup_with_manager agent s =
    if is_empty agent.node_name
    then (s, err (codes "AgentReconciler.NodeName is required"))
    else (s, ok agent)

module _ {Z F : Type 0} (client : ZoneClient Z) (connected : Result (Unit {0}))
    (files : FileSystem F) (json : JsonCodec) (dir_of : Text → Text)
    (runner : CommandRunner (World Z F)) where
  unfoldable pub new_firewalld_backend : Text → Text → Result (Backend (World Z F))
  unfolding firewalld_backend file_state_store
  new_firewalld_backend zone state_file =
      if is_empty zone then err (codes "firewalld zone is required") else elim connected [
        | err e ↦ wrap (codes "connect system bus") (err e)
        | ok _ ↦ ok (firewalld_backend client (file_state_store files json dir_of state_file) zone)
      ]

  unfoldable pub new_backend : Text → Text → Text → Result (Backend (World Z F))
  unfolding new_firewalld_backend iptables_backend nftables_backend text_discrete
  new_backend name zone state_file =
      if text_is name (codes "firewalld")
      then new_firewalld_backend zone state_file
      else if text_is name (codes "iptables")
      then ok (iptables_backend runner)
      else if text_is name (codes "nftables")
      then ok (nftables_backend runner)
      else err (codes "unsupported firewall backend " ++ quoted name)

  -- With the configuration and its backend: the backend is asked once before anything is applied.
  unfoldable pub start_backend :
      Text → AgentConfig → Backend (World Z F) → M (World Z F) (AgentReconciler (World Z F))
  unfolding setup_with_manager Backend.dry_run
  start_backend node_name cfg backend s =
      continue_with
        (λ (_ : Unit {0}). setup_with_manager record {
          node_name = node_name;
          backend = chosen cfg.dry_run backend;
          policy = record { denied_ports = cfg.denied_ports };
          dry_run = cfg.dry_run;
        })
        (wrapping (codes "validate firewall backend " ++ (chosen cfg.dry_run backend).name)
          (chosen cfg.dry_run backend).validate s)

  -- The ConfigMap by what its read returns.
  unfoldable pub start :
      Text → Text → Text → Result Labels → M (World Z F) (AgentReconciler (World Z F))
  unfolding load_config new_backend start_backend
  start node_name namespace name fetched s =
      if is_empty node_name
      then (s, err (codes "--node-name is required (or set NODE_NAME)"))
      else elim (load_config namespace name fetched) [
        | err e ↦ (s, err e)
        | ok cfg ↦ elim (new_backend cfg.backend cfg.zone cfg.state_file) [
          | err e ↦ (s, err e)
          | ok backend ↦ start_backend node_name cfg backend s
        ]
      ]
