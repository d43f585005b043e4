-- ===== src/Firewall/StartTests.antt =====
-- Starts of the agent from concrete ConfigMaps, and a reconcile of the agent that has started.
use bulb.Base.{
  ◌≡◌, refl, true, false, not, ◌&&◌, ◌||◌, [], ◌∷◌, codes, text_discrete, none, trim_space,
  split_on, join, decimal, cut_at, digits_from, text_less, ℕ_discrete,
}
use bulb.Base.Result.{Result, ok, err}
use bulb.Api.{Labels, LbPort}
use bulb.Firewall.Ports.{
  PortKey, has_key, diff_ports, intersect_ports, specs_from_keys, port_keys, next_managed_ports,
}
use bulb.Firewall.Policy.{filter_ports}
use bulb.Firewall.Desired.{desired_ports_for_node}
use bulb.Firewall.Policy.Exposure.{exposes}
use bulb.Firewall.Config.{AgentConfig, load_config}
use bulb.Firewall.Backend
use bulb.Firewall.Backend.{Backend}
use bulb.Firewall.Firewalld.{World, apply, firewalld_backend}
use bulb.Firewall.Firewalld.Sync.{manages}
use bulb.Firewall.StateFile.{file_state_store, load, save}
use bulb.Firewall.Commands.{CommandRunner}
use bulb.Firewall.Agent.{
  AgentState, reconcile, port_specs_discrete, set_last_desired, set_last_validate_err,
  finish_reconcile, update_lbport_statuses,
}
use bulb.Firewall.AgentTests.{sample_kube, web, node_a}
use bulb.Firewall.Samples.{Zone, zone_client, zone_laws, open_in, tcp}
use bulb.Firewall.StateFileTests.{Disk, sample_files, sample_json, keys_discrete, dir_of}
use bulb.Firewall.Start.{AgentReconciler, start}
use bulb.Firewall.Start.Opens.{start-opens, start-dry}

abbrev Node : Type 0
Node = World Zone Disk

-- The commands that are not installed.
abbrev no_runner : CommandRunner Node
no_runner = record {
  run = λ args s. (s, err (codes "not found"));
  run_input = λ input args s. (s, err (codes "not found"));
  output = λ args s. err (codes "not found");
  error_output = λ args s. [];
}

abbrev from_config : Labels → Node → Node × Result (AgentReconciler Node)
from_config cm =
    start zone_client (ok tt) sample_files sample_json dir_of no_runner node_a [] [] (ok cm)

-- 22 is open and not the agent's; there is no state file.
abbrev node : Node
node = record { zone = (9, tcp 22 ∷ []); file = (true, []) }

abbrev config : AgentConfig
config = record {
  backend = codes "firewalld";
  zone = codes "public";
  state_file = codes "/var/lib/bulb/firewall-agent-state.json";
  denied_ports = 22 ∷ 80 ∷ 443 ∷ [];
  dry_run = false;
}

abbrev sample_backend : Backend Node
sample_backend =
    firewalld_backend zone_client
      (file_state_store sample_files sample_json dir_of config.state_file) config.zone

abbrev agent : AgentReconciler Node
agent = record {
  node_name = node_a;
  backend = sample_backend;
  policy = record { denied_ports = config.denied_ports };
  dry_run = false;
}

abbrev dry_agent : AgentReconciler Node
dry_agent = record agent { backend = Backend.dry_run sample_backend; dry_run = true }

config_run : load_config [] [] (ok []) ≡ ok config
unfolding load_config trim_space
config_run = refl

start_run : (from_config [] node).1 ≡ ok agent
unfolding start zone_client
start_run = refl

abbrev dry_config : Labels
dry_config = (codes "dryRun", codes "true") ∷ []

dry_config_run : load_config [] [] (ok dry_config) ≡ ok (record config { dry_run = true })
unfolding load_config trim_space
dry_config_run = refl

dry_start_run : (from_config dry_config node).1 ≡ ok dry_agent
unfolding start zone_client
dry_start_run = refl

abbrev before : AgentState LbPort Node
before = record { api = web; firewall = node; last_desired = []; last_validate_err = none }

abbrev web_key : PortKey
web_key = record { port = 8080; protocol = codes "tcp" }

abbrev reconciled : AgentState LbPort Node × Result (Unit {0})
reconciled = reconcile sample_kube agent.backend agent.policy agent.node_name agent.dry_run before

reconcile_run : reconciled.1 ≡ ok tt
unfolding reconcile sample_kube firewalld_backend file_state_store sample_files sample_json
    zone_client keys_discrete port_specs_discrete filter_ports desired_ports_for_node diff_ports
    intersect_ports specs_from_keys port_keys next_managed_ports split_on join decimal cut_at
    digits_from text_discrete text_less ℕ_discrete set_last_desired set_last_validate_err has_key
    finish_reconcile update_lbport_statuses apply load save
reconcile_run = refl

start-opens_example : open_in reconciled.0.firewall.zone web_key ≡ (
    exposes agent.policy node_a (web ∷ []) web_key
    || (open_in node.zone web_key
        && not (
            manages
              (file_state_store sample_files sample_json dir_of config.state_file)
              node.file
              web_key)))
unfolding sample_kube
start-opens_example =
    start-opens zone_client (ok tt) sample_files sample_json dir_of no_runner sample_kube open_in
      node_a [] [] (ok []) node agent config start_run config_run refl refl (zone_laws config.zone)
      before (web ∷ []) web_key refl reconcile_run

start-dry_example :
    let a =
      (reconcile sample_kube dry_agent.backend dry_agent.policy dry_agent.node_name
        dry_agent.dry_run before).0 in
    (a.api ≡ before.api) × (a.firewall ≡ before.firewall)
start-dry_example =
    start-dry zone_client (ok tt) sample_files sample_json dir_of no_runner sample_kube node_a [] []
      (ok dry_config) node dry_agent (record config { dry_run = true }) dry_start_run dry_config_run
      refl before
