-- ===== src/Firewall/Tests.antt =====
-- Runs of the firewall agent on concrete inputs, and its theorems at inputs that meet their
-- hypotheses.
use bulb.Base.{
  All, ℕ_discrete, trim_space, text_discrete, split_on, decimal, quoted, ◌++◌, ℕ, ◌≡◌, refl, Bool,
  true, false, List, [], ◌∷◌, map, Text, codes, inl, inr, not, ◌&&◌, ◌||◌,
}
use bulb.Base.Result.{ok, err}
use bulb.Api.{LbPort, Labels, get_label}
use bulb.Firewall.Config.{AgentConfig, load_config, parse_denied_ports}
use bulb.Firewall.Config.Bounds.{IsPort, load_config-IsPort}
use bulb.Firewall.Ports.{
  PortSpec, PortKey, key, has_key, stable_unique_ports, diff_ports, specs_from_keys, port_keys,
  intersect_ports, next_managed_ports,
}
use bulb.Firewall.Desired.{desired_ports_for_node}
use bulb.Firewall.Policy.{FirewallPolicy, filter_ports}
use bulb.Firewall.Policy.Exposure.{exposes, filter_ports-exposes}
use bulb.Firewall.Firewalld.{World, port_string, apply}
use bulb.Firewall.Firewalld.Sync.{manages, apply-foreign, apply-manages}
use bulb.Firewall.Firewalld.Repeat.{apply_idem, apply_forgets_opened}
use bulb.Firewall.Samples.{Zone, zone_client, zone_laws, open_in, file_store, file_laws, tcp, udp}

firewall : Unit {0}
unfolding stable_unique_ports diff_ports intersect_ports next_managed_ports specs_from_keys
    port_keys desired_ports_for_node filter_ports has_key apply port_string zone_client file_store
    manages
firewall = tt

-- Ports 22 and 80 are open, the latter opened by the agent earlier; 8443 is desired now.
abbrev before : World Zone (List PortKey)
before = record {
  zone = (9, tcp 22 ∷ tcp 80 ∷ []);
  file = record { port = 80; protocol = codes "tcp" } ∷ [];
}

abbrev wanted : List PortSpec
wanted = udp 53 ∷ tcp 8443 ∷ []

abbrev after : World Zone (List PortKey)
after = (apply zone_client file_store (codes "public") wanted before).0

apply_run :
    ((apply zone_client file_store (codes "public") wanted before).1 ≡ ok tt)
    × (after.zone ≡ (6, tcp 8443 ∷ udp 53 ∷ tcp 22 ∷ []))
    × (after.file ≡ map key (udp 53 ∷ tcp 8443 ∷ []))
unfolding firewall
apply_run = (refl, refl, refl)

abbrev http : PortKey
http = record { port = 80; protocol = codes "tcp" }

abbrev ssh : PortKey
ssh = record { port = 22; protocol = codes "tcp" }

-- Port 22 is another's: it stays open.
apply-foreign_example : open_in after.zone ssh ≡ open_in before.zone ssh
unfolding firewall
apply-foreign_example =
    apply-foreign zone_client file_store (codes "public") open_in (zone_laws (codes "public"))
      wanted before ssh refl refl

apply-manages_example : manages file_store after.file http ≡ (
    has_key http wanted && (not (open_in before.zone http) || manages file_store before.file http))
unfolding firewall
apply-manages_example =
    apply-manages zone_client file_store (codes "public") open_in (zone_laws (codes "public"))
      file_laws wanted (inr refl, (inl refl, tt)) before http apply_run.0

apply_idem_example :
    (apply zone_client file_store (codes "public") wanted after).0.zone ≡ after.zone
unfolding firewall
apply_idem_example =
    apply_idem zone_client file_store (codes "public") open_in (zone_laws (codes "public"))
      file_laws wanted (inr refl, (inl refl, tt)) before apply_run.0

-- The zone allows one call only: the first port is opened, and the second call fails.
abbrev tight : World Zone (List PortKey)
tight = record { zone = (1, []); file = [] }

abbrev broken : World Zone (List PortKey)
broken = (apply zone_client file_store (codes "public") wanted tight).0

abbrev dns : PortKey
dns = record { port = 53; protocol = codes "udp" }

broken_run :
    ((apply zone_client file_store (codes "public") wanted tight).1
      ≡ err (codes "add 8443/tcp to zone public: failed"))
    × (broken.zone ≡ (0, udp 53 ∷ []))
    × (broken.file ≡ [])
unfolding firewall
broken_run = (refl, refl, refl)

-- Nothing is desired any more, and the next call succeeds: port 53 stays open.
apply_forgets_opened_example :
    let w = (apply zone_client file_store (codes "public") [] broken).0 in
    (open_in w.zone dns ≡ true) × (manages file_store w.file dns ≡ false)
unfolding firewall
apply_forgets_opened_example =
    apply_forgets_opened zone_client file_store (codes "public") open_in
      (zone_laws (codes "public")) file_laws wanted [] tt tight dns [] []
      (codes "add 8443/tcp to zone public: failed") refl refl refl refl refl refl

abbrev pub lbport : Text → ℕ → List Text → Bool → LbPort
lbport name port nodes allowed = record {
  name = name;
  labels = [];
  spec = record {
    port = port;
    protocol = codes "TCP";
    nodes = nodes;
    owner = codes "bulb-controller";
    allow_privileged = allowed;
  };
  status = record { applied_nodes = codes "node-b" ∷ [] };
}

abbrev lbports : List LbPort
lbports =
    lbport (codes "web") 80 (codes "*" ∷ []) true
    ∷ lbport (codes "ssh") 22 (codes "node-a" ∷ []) true
    ∷ lbport (codes "low") 81 (codes "node-a" ∷ []) false
    ∷ []

abbrev pub policy : FirewallPolicy
policy = record { denied_ports = 22 ∷ [] }

filter_ports-exposes_example :
    has_key http (filter_ports policy (desired_ports_for_node lbports (codes "node-a"))).0
    ≡ exposes policy (codes "node-a") lbports http
filter_ports-exposes_example = filter_ports-exposes policy (codes "node-a") lbports http

abbrev config_map : Labels
config_map = (codes "deniedPorts", codes "22, 6443,,10250") ∷ (codes "dryRun", codes "true") ∷ []

abbrev loaded : AgentConfig
loaded = record {
  backend = codes "firewalld";
  zone = codes "public";
  state_file = codes "/var/lib/bulb/firewall-agent-state.json";
  denied_ports = 22 ∷ 6443 ∷ 10250 ∷ [];
  dry_run = true;
}

load_config-IsPort_example : All IsPort loaded.denied_ports
unfolding load_config trim_space text_discrete split_on get_label ℕ_discrete
load_config-IsPort_example = load_config-IsPort [] [] config_map loaded refl

range_run :
    (parse_denied_ports (codes "70000") ≡ err (codes "port 70000 out of range"))
    × (parse_denied_ports (codes "-1") ≡ err (codes "port -1 out of range"))
    × (parse_denied_ports (codes "http") ≡ err (codes "invalid port " ++ quoted (codes "http")))
unfolding parse_denied_ports trim_space decimal split_on ℕ_discrete
range_run = (refl, refl, refl)
