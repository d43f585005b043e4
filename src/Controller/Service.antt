-- ===== src/Controller/Service.antt =====
-- The Service as the controller reads it, its annotations and labels, and the names made from it:
-- internal/controller/reconciler.go, daemonset.go, lbport.go and dnsrecord.go.
use bulb.Base.{
  ℕ, if◌then◌else◌, Bool, true, false, ◌||◌, List, [], ◌∷◌, ◌++◌, Text, codes, text_discrete, ite,
  is_empty, to_lower, decimal, Option, none, some,
}
use bulb.Api.{Labels, get_label}

-- Whether two texts are equal.
abbrev pub text_eq : Text → Text → Bool
text_eq a b = ite (text_discrete a b) true false

abbrev pub annotation_nodes : Text
annotation_nodes = codes "bulb.toturi.tech/nodes"

abbrev pub annotation_allow_privileged_port : Text
annotation_allow_privileged_port = codes "bulb.toturi.tech/allow-privileged-port"

abbrev pub annotation_proxy_protocol : Text
annotation_proxy_protocol = codes "bulb.toturi.tech/proxy-protocol"

abbrev pub annotation_external_traffic_policy : Text
annotation_external_traffic_policy = codes "bulb.toturi.tech/external-traffic-policy"

abbrev pub annotation_keep_on_uninstall : Text
annotation_keep_on_uninstall = codes "bulb.toturi.tech/keep-on-uninstall"

abbrev pub annotation_dns_name : Text
annotation_dns_name = codes "bulb.toturi.tech/dns-name"

abbrev pub label_managed_by : Text
label_managed_by = codes "app.kubernetes.io/managed-by"

abbrev pub label_managed_by_v : Text
label_managed_by_v = codes "bulb"

abbrev pub label_service : Text
label_service = codes "bulb.toturi.tech/service"

abbrev pub label_service_ns : Text
label_service_ns = codes "bulb.toturi.tech/service-namespace"

abbrev pub lb_port_owner_name : Text
lb_port_owner_name = codes "bulb-controller"

-- `intstr.IntOrString`, by the text that its `String` method returns.
pub record ServicePort : Type 0 where
  pub name : Text
  pub protocol : Text
  pub port : ℕ
  pub target_port : Text

-- `metav1.Condition` without its transition time.
pub record Condition : Type 0 where
  pub condition_type : Text
  pub status : Text
  pub observed_generation : ℕ
  pub reason : Text
  pub message : Text

pub record Service : Type 0 where
  pub namespace : Text
  pub name : Text
  pub generation : ℕ
  pub annotations : Labels
  pub service_type : Text
  pub load_balancer_class : Option Text
  pub cluster_ip : Text
  pub cluster_ips : List Text
  pub ports : List ServicePort
  pub ingress : List Text
  pub conditions : List Condition

-- `*cls`, or the empty text for nil.
abbrev class_of : Option Text → Text
class_of none = codes ""
class_of (some cls) = cls

unfoldable pub service_matches : Service → Bool
service_matches svc =
    if text_eq svc.service_type (codes "LoadBalancer")
    then text_eq (class_of svc.load_balancer_class) (codes "")
      || text_eq (class_of svc.load_balancer_class) (codes "bulb")
    else false

-- `svc.Annotations[key] == value`
unfoldable pub annotated : Service → Text → Text → Bool
unfolding get_label
annotated svc k v = text_eq (get_label k svc.annotations) v

unfoldable pub service_labels : Service → Labels
service_labels svc =
    (label_managed_by, label_managed_by_v)
    ∷ (label_service, svc.name)
    ∷ (label_service_ns, svc.namespace)
    ∷ []

-- `fmt.Sprintf("bulb-%s-%s", namespace, name)`, the name of a Service's DaemonSet and A record.
unfoldable pub object_name : Text → Text → Text
object_name namespace name = codes "bulb-" ++ (namespace ++ (codes "-" ++ name))

unfoldable pub daemon_set_name : Service → Text
unfolding object_name
daemon_set_name svc = object_name svc.namespace svc.name

unfoldable pub dns_record_name : Service → Text
unfolding object_name
dns_record_name svc = object_name svc.namespace svc.name

unfoldable pub dns_record_name_aaaa : Service → Text
unfolding dns_record_name
dns_record_name_aaaa svc = dns_record_name svc ++ codes "-aaaa"

unfoldable pub lb_port_name : Service → ServicePort → Text
unfolding to_lower decimal
lb_port_name svc p =
    let protocol =
      if is_empty (to_lower p.protocol) then to_lower (codes "TCP") else to_lower p.protocol in
    codes "bulb-"
    ++ (svc.namespace
        ++ (codes "-" ++ (svc.name ++ (codes "-" ++ (decimal p.port ++ (codes "-" ++ protocol))))))
