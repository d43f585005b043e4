-- ===== src/Controller/Pods.antt =====
-- The parts of a proxy's pod, and where it may run: internal/controller/daemonset.go. The pod's
-- constants are those of the source; Kubernetes' parser of label selectors is a parameter.
use bulb.Base.{
  ℕ, if◌then◌else◌, Bool, true, false, ◌||◌, List, [], ◌∷◌, ◌++◌, Text, codes, quoted, is_empty,
  Option, none, some,
}
use bulb.Base.Result.{Result, ok, err}
use bulb.Api.{Labels}
use bulb.Controller.Service.{text_eq}

pub record ContainerPort : Type 0 where
  pub name : Text
  pub container_port : ℕ
  pub host_port : ℕ
  pub protocol : Text

pub record HttpProbe : Type 0 where
  pub path : Text
  pub port : Text
  pub period_seconds : ℕ

pub record SecurityContext : Type 0 where
  pub allow_privilege_escalation : Bool
  pub privileged : Bool
  pub read_only_root_filesystem : Bool
  pub run_as_non_root : Bool
  pub dropped_capabilities : List Text
  pub seccomp_profile : Text

pub record Container : Type 0 where
  pub name : Text
  pub image : Text
  pub image_pull_policy : Text
  pub args : List Text
  pub ports : List ContainerPort
  pub security_context : SecurityContext
  pub requests : Labels
  pub limits : Labels
  pub liveness_probe : HttpProbe
  pub readiness_probe : HttpProbe

-- A requirement of a label selector, or of a node selector.
pub record Requirement : Type 0 where
  pub key : Text
  pub operator : Text
  pub values : List Text

pub record LabelSelector : Type 0 where
  pub match_labels : Labels
  pub match_expressions : List Requirement

-- The affinity by its only term's expressions.
pub record PodSpec : Type 0 where
  pub host_network : Bool
  pub dns_policy : Text
  pub termination_grace_period_seconds : ℕ
  pub node_selector : Labels
  pub affinity : Option (List Requirement)
  pub container : Container

pub record DaemonSetSpec : Type 0 where
  pub match_labels : Labels
  pub template_labels : Labels
  pub pod : PodSpec

unfoldable pub health_container_port : ContainerPort
health_container_port = record {
  name = codes "probes";
  container_port = 8081;
  host_port = 0;
  protocol = codes "TCP";
}

unfoldable pub http_probe : Text → HttpProbe
http_probe path = record { path = path; port = codes "probes"; period_seconds = 5 }

unfoldable pub hardened_security_context : SecurityContext
hardened_security_context = record {
  allow_privilege_escalation = false;
  privileged = false;
  read_only_root_filesystem = true;
  run_as_non_root = true;
  dropped_capabilities = codes "ALL" ∷ [];
  seccomp_profile = codes "RuntimeDefault";
}

abbrev pub first_args : List Text
first_args = codes "proxy" ∷ codes "--drain-timeout=30s" ∷ codes "--health-bind-address=:8081" ∷ []

unfoldable pub pod_spec :
    Text → Labels → Option (List Requirement) → List Text → List ContainerPort → PodSpec
unfolding health_container_port hardened_security_context http_probe
pod_spec image node_selector affinity args ports = record {
  host_network = false;
  dns_policy = codes "ClusterFirstWithHostNet";
  termination_grace_period_seconds = 30;
  node_selector = node_selector;
  affinity = affinity;
  container = record {
    name = codes "proxy";
    image = image;
    image_pull_policy = codes "IfNotPresent";
    args = first_args ++ args;
    ports = ports ++ health_container_port ∷ [];
    security_context = hardened_security_context;
    requests = (codes "cpu", codes "10m") ∷ (codes "memory", codes "32Mi") ∷ [];
    limits = (codes "memory", codes "128Mi") ∷ [];
    liveness_probe = http_probe (codes "/healthz");
    readiness_probe = http_probe (codes "/readyz");
  };
}

unfoldable pub to_node_selector_operator : Text → Result Text
to_node_selector_operator op =
    if text_eq op (codes "In")
      || (text_eq op (codes "NotIn")
          || (text_eq op (codes "Exists") || text_eq op (codes "DoesNotExist")))
    then ok op
    else err (codes "unsupported selector operator " ++ quoted op)

-- The loop over the expressions of `nodePlacement`.
unfoldable pub node_requirements : List Requirement → Result (List Requirement)
unfolding to_node_selector_operator
node_requirements [] = ok []
node_requirements (e ∷ es) = elim (to_node_selector_operator e.operator) [
  | err x ↦ err x
  | ok op ↦ elim (node_requirements es) [
    | err x ↦ err x
    | ok exprs ↦ ok (record e { operator = op } ∷ exprs)
  ]
]

-- The selector's labels, and the affinity that its expressions need.
unfoldable pub placement_of : LabelSelector → Result (Labels × Option (List Requirement))
unfolding node_requirements
placement_of sel =
    if is_empty sel.match_expressions
    then ok (sel.match_labels, none)
    else elim (node_requirements sel.match_expressions) [
      | err e ↦ err e
      | ok exprs ↦ ok (sel.match_labels, some exprs)
    ]

unfoldable pub node_placement :
    (Text → Result LabelSelector) → Text → Result (Labels × Option (List Requirement))
unfolding placement_of
node_placement parse raw =
    if is_empty raw
    then ok ([], none)
    else elim (parse raw) [ err e ↦ err e | ok sel ↦ placement_of sel ]
