-- ===== src/Controller/Server.antt =====
-- The API server as `Reconcile` uses it. It keeps each kind of object apart; of what it keeps, the
-- nodes and the endpoints are only read. Kubernetes' label selectors and status conditions,
-- `net.ParseIP` and the comparison of two DaemonSet specs are parameters.
pub mod Laws
use bulb.Base.{ℕ, Bool, List, Text, Option}
use bulb.Base.Result.{M, Result, Found}
use bulb.Api.{LbPort, DnsRecord}
use bulb.Controller.Service.{Service, Condition}
use bulb.Controller.Cluster.{ObjectClient}
use bulb.Controller.LbPorts.{Node, Selectors}
use bulb.Controller.Endpoints.{EndpointSubset}
use bulb.Controller.Pods.{DaemonSetSpec, LabelSelector}
use bulb.Controller.Cleanup.{DaemonSet}
use bulb.Controller.Status.{Event}

-- The API server's stores, and the events that were recorded.
pub record Server (D L N V W : Type 0) : Type 0 where
  pub daemon_sets : D
  pub lb_ports : L
  pub dns_records : N
  pub services : V
  pub cluster : W
  pub events : List Event

-- The calls on each store.
pub record Kube (D L N V W : Type 0) : Type 0 where
  pub daemon_set_client : ObjectClient D (DaemonSet DaemonSetSpec)
  pub lb_port_client : ObjectClient L LbPort
  pub dns_record_client : ObjectClient N DnsRecord
  pub update_lb_port_status : LbPort → M L (Unit {0})
  pub get_service : Text → Text → V → Found Service
  pub list_services : V → Result (List Service)
  pub patch_service_status : Service → M V (Unit {0})
  pub list_nodes : W → Result (List Node)
  pub get_endpoints : Text → Text → W → Found (List EndpointSubset)

-- What the reconciler is given: its image and event recorder, and the parsers.
pub record Settings : Type 1 where
  pub image : Text
  pub has_recorder : Bool
  pub selectors : Selectors
  pub parse_label_selector : Text → Result LabelSelector
  pub parse_ip : Text → Option Bool
  pub spec_eq : DaemonSetSpec → DaemonSetSpec → Bool
  pub set_condition : List Condition → Condition → List Condition

module _ {D L N V W : Type 0} where
  -- A call on one store, as one on the server.
  unfoldable pub on_daemon_sets : {A : Type 0} → M D A → M (Server D L N V W) A
  on_daemon_sets m s = let (x, r) = m s.daemon_sets in (record s { daemon_sets = x }, r)

  unfoldable pub on_lb_ports : {A : Type 0} → M L A → M (Server D L N V W) A
  on_lb_ports m s = let (x, r) = m s.lb_ports in (record s { lb_ports = x }, r)

  unfoldable pub on_dns_records : {A : Type 0} → M N A → M (Server D L N V W) A
  on_dns_records m s = let (x, r) = m s.dns_records in (record s { dns_records = x }, r)

  unfoldable pub on_services : {A : Type 0} → M V A → M (Server D L N V W) A
  on_services m s = let (x, r) = m s.services in (record s { services = x }, r)

  unfoldable pub all_daemon_sets :
      ObjectClient D (DaemonSet DaemonSetSpec)
      → ObjectClient (Server D L N V W) (DaemonSet DaemonSetSpec)
  unfolding on_daemon_sets
  all_daemon_sets c = record {
    get = λ n s. c.get n s.daemon_sets;
    list = λ l s. c.list l s.daemon_sets;
    create = λ o. on_daemon_sets (c.create o);
    update = λ o. on_daemon_sets (c.update o);
    delete = λ o s. let (x, r) = c.delete o s.daemon_sets in (record s { daemon_sets = x }, r);
  }

  unfoldable pub all_lb_ports : ObjectClient L LbPort → ObjectClient (Server D L N V W) LbPort
  unfolding on_lb_ports
  all_lb_ports c = record {
    get = λ n s. c.get n s.lb_ports;
    list = λ l s. c.list l s.lb_ports;
    create = λ o. on_lb_ports (c.create o);
    update = λ o. on_lb_ports (c.update o);
    delete = λ o s. let (x, r) = c.delete o s.lb_ports in (record s { lb_ports = x }, r);
  }

  unfoldable pub all_dns_records :
      ObjectClient N DnsRecord → ObjectClient (Server D L N V W) DnsRecord
  unfolding on_dns_records
  all_dns_records c = record {
    get = λ n s. c.get n s.dns_records;
    list = λ l s. c.list l s.dns_records;
    create = λ o. on_dns_records (c.create o);
    update = λ o. on_dns_records (c.update o);
    delete = λ o s. let (x, r) = c.delete o s.dns_records in (record s { dns_records = x }, r);
  }
