-- ===== src/Controller/SampleServer.antt =====
-- An API server for the runs, which keeps its objects in lists, the last write first, and the laws
-- that it obeys.
use bulb.Base.{
  ℕ, ◌≡◌, refl, sym, ap, ◌∙◌, if◌then◌else◌, Bool, true, false, not, ◌&&◌, List, [], ◌∷◌, Text,
  codes, text_discrete, ℕ_discrete, contains, Option, none, some, if_pos, if_neg, arith,
}
use bulb.Base.Result.{Result, ok, err, Found, found, not_found}
use bulb.Api.{Labels, LbPort, DnsRecord}
use bulb.Controller.Service.{Service, Condition, text_eq}
use bulb.Controller.Samples.{sample_client, sample_laws, find_object}
use bulb.Controller.Cluster.{IsObjectClient}
use bulb.Controller.LbPorts.{Node, Selectors}
use bulb.Controller.Pods.{DaemonSetSpec}
use bulb.Controller.Cleanup.{DaemonSet}
use bulb.Controller.Cleanup.Pruned.{IsStatusUpdate}
use bulb.Controller.Server.{Server, Kube, Settings}
use bulb.Controller.Reconcile.Conditions.{IsSetter}
use bulb.Controller.Reconcile.Stored.{IsServiceStore}

abbrev pub Sets : Type 0
Sets = List (DaemonSet DaemonSetSpec)

abbrev pub set_name : DaemonSet DaemonSetSpec → Text
set_name d = d.name

abbrev pub set_labels : DaemonSet DaemonSetSpec → Labels
set_labels d = d.labels

abbrev pub port_name : LbPort → Text
port_name l = l.name

abbrev pub port_labels : LbPort → Labels
port_labels l = l.labels

abbrev is_service : Text → Text → Service → Bool
is_service ns n svc = text_eq svc.namespace ns && text_eq svc.name n

abbrev pub find_service : Text → Text → List Service → Option Service
find_service ns n [] = none
find_service ns n (svc ∷ v) = if is_service ns n svc then some svc else find_service ns n v

abbrev found_service : Option Service → Found Service
found_service none = not_found
found_service (some svc) = found svc

abbrev write_status : LbPort → Option LbPort → List LbPort → List LbPort × Result (Unit {0})
write_status l none s = (s, err (codes "not found"))
write_status l (some o) s = (record o { status = l.status } ∷ s, ok tt)

unfoldable pub kube : Kube Sets (List LbPort) (List DnsRecord) (List Service) (List Node)
unfolding sample_client
kube = record {
  daemon_set_client = sample_client set_name set_labels;
  lb_port_client = sample_client port_name port_labels;
  dns_record_client = sample_client (λ r. r.name) (λ r. r.labels);
  update_lb_port_status = λ l s. write_status l (find_object port_name port_labels l.name s) s;
  get_service = λ ns n v. found_service (find_service ns n v);
  list_services = ok;
  patch_service_status = λ svc v. (svc ∷ v, ok tt);
  list_nodes = ok;
  get_endpoints = λ ns n w. not_found;
}

abbrev pub set_condition : List Condition → Condition → List Condition
set_condition cs c = c ∷ cs

abbrev all_nodes : Selectors
all_nodes = record { Selector = Unit {0}; parse = λ s. ok tt; matches = λ s l. true }

unfoldable pub settings : Settings
unfolding ℕ_discrete
settings = record {
  image = codes "bulb:1";
  has_recorder = true;
  selectors = all_nodes;
  parse_label_selector = λ s. err (codes "no selector");
  parse_ip = λ s. some (not (contains ℕ_discrete 58 s));
  spec_eq = λ a b. false;
  set_condition = set_condition;
}

pub setter : IsSetter set_condition
setter t cs c = refl

find-write_status :
    (l : LbPort) (s : List LbPort) (n : Text) (o : LbPort) (r : Option LbPort)
    → find_object port_name port_labels l.name s ≡ r
    → find_object port_name port_labels n s ≡ some o
    → (o' : LbPort) × (find_object port_name port_labels n (write_status l r s).0 ≡ some o')
      × (o'.spec ≡ o.spec)
      × (o'.labels ≡ o.labels)
find-write_status l s n o none e h = (o, h, refl, refl)
find-write_status l s n o (some x) e h = elim (text_discrete x.name n) [
  | no ne ↦ (o, if_neg (text_discrete x.name n) ne _ _ ∙ h, refl, refl)
  | yes same ↦
      let named = (sample_laws port_name port_labels).named l.name s x e in
      let both : some x ≡ some o =
        sym e ∙ ap (λ m. find_object port_name port_labels m s) (sym named ∙ same) ∙ h in
      let equal : x ≡ o = cc in
      (
        record x { status = l.status },
        if_pos (text_discrete x.name n) same _ _,
        ap (λ (y : LbPort). y.spec) equal,
        ap (λ (y : LbPort). y.labels) equal,
      )
]

pub status_law :
    IsStatusUpdate (λ s n. find_object port_name port_labels n s) kube.update_lb_port_status
unfolding kube
status_law l s n o h = find-write_status l s n o _ refl h

found-named :
    (ns n : Text) (v : List Service) (svc : Service)
    → find_service ns n v ≡ some svc
    → (svc.namespace ≡ ns) × (svc.name ≡ n)
found-named ns n [] svc h = cc
found-named ns n (x ∷ v) svc h = ground (arith, found-named ns n v svc)

found_service-eq : (r : Option Service) (svc : Service) → found_service r ≡ found svc → r ≡ some svc
found_service-eq none svc h = cc
found_service-eq (some x) svc h = cc

found_service-none : (r : Option Service) → found_service r ≡ not_found → r ≡ none
found_service-none none h = refl
found_service-none (some x) h = cc

pub store : IsServiceStore kube (λ v ns n. find_service ns n v)
unfolding kube
store = record {
  got = λ ns n v svc h.
      let stored = found_service-eq (find_service ns n v) svc h in
      let (a, b) = found-named ns n v svc stored in (stored, a, b);
  got_none = λ ns n v h. found_service-none (find_service ns n v) h;
  patched = λ svc v h. (svc, ground arith, refl, refl);
}

pub sets_laws :
    IsObjectClient set_name kube.daemon_set_client (λ s n. find_object set_name set_labels n s)
unfolding kube
sets_laws = sample_laws set_name set_labels

pub ports_laws :
    IsObjectClient port_name kube.lb_port_client (λ s n. find_object port_name port_labels n s)
unfolding kube
ports_laws = sample_laws port_name port_labels

abbrev pub web : List Text → ℕ → Service
web ips port = record {
  namespace = codes "demo";
  name = codes "web";
  generation = 4;
  annotations = [];
  service_type = codes "LoadBalancer";
  load_balancer_class = some (codes "bulb");
  cluster_ip = codes "10.0.0.1";
  cluster_ips = codes "10.0.0.1" ∷ [];
  ports =
      record { name = codes "http"; protocol = codes "TCP"; port = port; target_port = codes "0" }
      ∷ [];
  ingress = ips;
  conditions = [];
}

abbrev node : Node
node = record {
  name = codes "node-a";
  labels = [];
  annotations = (codes "bulb.toturi.tech/public-ipv4", codes "203.0.113.7") ∷ [];
  unschedulable = false;
}

abbrev pub server : ℕ → Server Sets (List LbPort) (List DnsRecord) (List Service) (List Node)
server port = record {
  daemon_sets = [];
  lb_ports = [];
  dns_records = [];
  services = web [] port ∷ [];
  cluster = node ∷ [];
  events = [];
}
