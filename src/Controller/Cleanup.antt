-- ===== src/Controller/Cleanup.antt =====
-- The DaemonSet's life and the cleanup of a Service (`applyDaemonSet`, `cleanupByName` of
-- internal/controller/reconciler.go), and `pruneStaleAppliedNodes` of lbport.go. A DaemonSet's
-- spec is opaque here; `P` is its type.
pub mod Frame
pub mod Gone
pub mod Owned
pub mod Pruned
pub mod Applied
use bulb.Base.{
  ℕ, ◌==◌, if◌then◌else◌, Bool, true, false, not, ◌&&◌, ◌||◌, List, [], ◌∷◌, ◌++◌, Text, codes,
  is_empty, length, text_discrete, ite,
}
use bulb.Base.Result.{
  M, Result, ok, err, wrap, wrapping, Found, found, not_found, failed, continue_with, query, return,
  ◌>>=◌, ◌>>◌,
}
use bulb.Api.{Labels, get_label, LbPort, DnsRecord}
use bulb.Controller.Service.{
  Service, text_eq, annotation_keep_on_uninstall, annotated, service_labels, object_name,
  label_managed_by, label_managed_by_v, label_service, label_service_ns,
}
use bulb.Controller.Cluster.{ObjectClient, ignore_not_found}
use bulb.Controller.LbPorts.{labels_equal, valid_nodes, prune_nodes, cleanup_lb_ports, Node}
use bulb.Controller.DnsRecords.{cleanup_dns_records_by_name}

pub record DaemonSet (P : Type 0) : Type 0 where
  pub name : Text
  pub labels : Labels
  pub annotations : Labels
  pub spec : P

pub data CleanupMode : Type 0 where
  force_delete : CleanupMode
  honor_keep : CleanupMode

unfoldable pub cleanup_mode_for_service : Service → CleanupMode
unfolding annotated
cleanup_mode_for_service svc =
    if annotated svc annotation_keep_on_uninstall (codes "true") then honor_keep else force_delete

abbrev is_forced : CleanupMode → Bool
is_forced force_delete = true
is_forced honor_keep = false

-- The labels are those of the Service.
unfoldable pub is_owned : Text → Text → Labels → Bool
unfolding get_label
is_owned svc_namespace svc_name labels = not (
    not (text_eq (get_label label_service labels) svc_name)
    || (not (text_eq (get_label label_service_ns labels) svc_namespace)
        || not (text_eq (get_label label_managed_by labels) label_managed_by_v)))

-- The DaemonSet goes, unless it is to be kept.
unfoldable pub is_deleted : CleanupMode → Labels → Bool
unfolding get_label
is_deleted mode annotations =
    is_forced mode
    || not (text_eq (get_label annotation_keep_on_uninstall annotations) (codes "true"))

module _ {S P : Type 0} (daemon_sets : ObjectClient S (DaemonSet P)) (spec_eq : P → P → Bool) where
  -- `applyDaemonSet`; `spec_eq` is the comparison of two specs.
  unfoldable pub apply_daemon_set : DaemonSet P → M S (Unit {0})
  unfolding labels_equal
  apply_daemon_set desired s = elim (daemon_sets.get desired.name s) [
    | not_found ↦ wrapping (codes "create daemonset") (daemon_sets.create desired) s
    | failed e ↦ (s, wrap (codes "get daemonset") (err e))
    | found existing ↦
        if spec_eq existing.spec desired.spec
          && (labels_equal existing.labels desired.labels
              && labels_equal existing.annotations desired.annotations)
        then (s, ok tt)
        else wrapping (codes "update daemonset")
            (daemon_sets.update (record existing {
              spec = desired.spec;
              labels = desired.labels;
              annotations = desired.annotations;
            }))
            s
  ]

module _ {S P : Type 0} (daemon_sets : ObjectClient S (DaemonSet P))
    (lb_ports : ObjectClient S LbPort) (dns_records : ObjectClient S DnsRecord) where
  -- The LBPorts, then the DNS records.
  unfoldable pub cleanup_rest : Text → Text → M S (Unit {0})
  unfolding cleanup_lb_ports cleanup_dns_records_by_name
  cleanup_rest svc_namespace svc_name = do
    cleanup_lb_ports lb_ports svc_namespace svc_name
    cleanup_dns_records_by_name dns_records svc_namespace svc_name

  unfoldable pub cleanup_by_name : Text → Text → CleanupMode → M S (Unit {0})
  unfolding cleanup_rest is_owned is_deleted object_name
  cleanup_by_name svc_namespace svc_name mode s =
      elim (daemon_sets.get (object_name svc_namespace svc_name) s) [
        | not_found ↦ cleanup_rest svc_namespace svc_name s
        | failed e ↦ (s, wrap (codes "get daemonset for cleanup") (err e))
        | found ds ↦
            if not (is_owned svc_namespace svc_name ds.labels)
            then (s, ok tt)
            else if is_deleted mode ds.annotations
            then continue_with (λ _. cleanup_rest svc_namespace svc_name)
                (wrapping (codes "delete daemonset")
                  (λ t. ignore_not_found tt (daemon_sets.delete ds t)) s)
            else cleanup_rest svc_namespace svc_name s
      ]

-- A Get whose not-found error is an error like any other.
abbrev pub found_or_error : Found LbPort → Result LbPort
found_or_error (found l) = ok l
found_or_error not_found = err (codes "not found")
found_or_error (failed e) = err e

module _ {S : Type 0} (lb_ports : ObjectClient S LbPort)
    (update_status : LbPort → M S (Unit {0})) where
  -- The loop's body in `pruneStaleAppliedNodes`.
  unfoldable pub prune_lb_port : List Text → LbPort → M S (Unit {0})
  unfolding prune_nodes
  prune_lb_port valid l s =
      let pruned = prune_nodes valid l.status.applied_nodes in
      if is_empty l.status.applied_nodes || length pruned == length l.status.applied_nodes
      then (s, ok tt)
      else elim (found_or_error (lb_ports.get l.name s)) [
        | err e ↦ (s, wrap (codes "get lbport " ++ l.name ++ codes " for stale cleanup") (err e))
        | ok latest ↦
            wrapping (codes "prune stale nodes from lbport " ++ l.name)
              (update_status (record latest { status = record { applied_nodes = pruned } })) s
      ]

  unfoldable pub prune_lb_ports : List Text → List LbPort → M S (Unit {0})
  unfolding prune_lb_port
  prune_lb_ports valid [] s = (s, ok tt)
  prune_lb_ports valid (l ∷ ls) s =
      continue_with (λ _. prune_lb_ports valid ls) (prune_lb_port valid l s)

  unfoldable pub prune_stale_applied_nodes : (S → Result (List Node)) → Service → M S (Unit {0})
  unfolding valid_nodes prune_lb_ports
  prune_stale_applied_nodes list_nodes svc = do
    nodes ← query (λ s. wrap (codes "list nodes for stale cleanup") (list_nodes s))
    items ←
        query (λ s.
          wrap (codes "list lbports for stale cleanup") (lb_ports.list (service_labels svc) s))
    prune_lb_ports (valid_nodes nodes) items
