-- ===== src/Controller/Cleanup/Frame.antt =====
-- What every delete keeps, a cleanup keeps: whatever fails, and in either mode.
use bulb.Base.{◌≡◌, refl, sym, List, [], ◌∷◌, ◌++◌, Text, codes, inl, inr, Bool-cases, subst}
use bulb.Base.Result.{Found, found, not_found, failed, Result-cases, continue_with-state, wrapping}
use bulb.Api.{LbPort, DnsRecord}
use bulb.Controller.Service.{
  object_name, label_managed_by, label_managed_by_v, label_service, label_service_ns,
}
use bulb.Controller.Cluster.{ObjectClient, ignore_not_found}
use bulb.Controller.LbPorts.{cleanup_items, cleanup_lb_ports}
use bulb.Controller.LbPorts.Applied.{Found-cases}
use bulb.Controller.DnsRecords.{delete_dns_records, cleanup_dns_records_by_name}
use bulb.Controller.Cleanup.{
  DaemonSet, CleanupMode, is_owned, is_deleted, cleanup_rest, cleanup_by_name,
}

pub ignore_not_found-state :
    {A S : Type 0} (a : A) (m : S × Found A) → (ignore_not_found a m).0 ≡ m.0
ignore_not_found-state a (s, found b) = refl
ignore_not_found-state a (s, not_found) = refl
ignore_not_found-state a (s, failed e) = refl

module _ {ℓ} {S P : Type 0} (daemon_sets : ObjectClient S (DaemonSet P))
    (lb_ports : ObjectClient S LbPort) (dns_records : ObjectClient S DnsRecord) (Q : S → Type ℓ)
    (keeps_ports : (o : LbPort) (s : S) → Q s → Q (lb_ports.delete o s).0)
    (keeps_records : (o : DnsRecord) (s : S) → Q s → Q (dns_records.delete o s).0) where
  items-keeps : (items : List LbPort) (s : S) → Q s → Q (cleanup_items lb_ports items s).0
  unfolding cleanup_items
  items-keeps [] s q = q
  items-keeps (item ∷ items) s q =
      continue_with-state Q (λ _. cleanup_items lb_ports items)
        (wrapping (codes "delete lbport " ++ item.name)
          (λ t. ignore_not_found tt (lb_ports.delete item t)) s)
        (subst Q (sym (ignore_not_found-state tt (lb_ports.delete item s))) (keeps_ports item s q))
        (λ _ t r. items-keeps items t r)

  records-keeps :
      (items : List DnsRecord) (s : S) → Q s → Q (delete_dns_records dns_records items s).0
  unfolding delete_dns_records
  records-keeps [] s q = q
  records-keeps (item ∷ items) s q =
      continue_with-state Q (λ _. delete_dns_records dns_records items)
        (wrapping (codes "delete dnsrecord " ++ item.name)
          (λ t. ignore_not_found tt (dns_records.delete item t)) s)
        (subst Q (sym (ignore_not_found-state tt (dns_records.delete item s)))
          (keeps_records item s q))
        (λ _ t r. records-keeps items t r)

  ports-keeps : (ns name : Text) (s : S) → Q s → Q (cleanup_lb_ports lb_ports ns name s).0
  unfolding cleanup_lb_ports
  ports-keeps ns name s q =
      let listed =
        lb_ports.list
          ((label_managed_by, label_managed_by_v)
            ∷ (label_service, name)
            ∷ (label_service_ns, ns)
            ∷ [])
          s in
      elim (Result-cases listed) [
        | inr (e, failed') ↦ rw (failed', cleanup_lb_ports) q
        | inl (items, read) ↦ rw (read, cleanup_lb_ports) (items-keeps items s q)
      ]

  dns-keeps :
      (ns name : Text) (s : S) → Q s → Q (cleanup_dns_records_by_name dns_records ns name s).0
  unfolding cleanup_dns_records_by_name
  dns-keeps ns name s q =
      let listed =
        dns_records.list
          ((label_managed_by, label_managed_by_v)
            ∷ (label_service, name)
            ∷ (label_service_ns, ns)
            ∷ [])
          s in
      elim (Result-cases listed) [
        | inr (e, failed') ↦ rw (failed', cleanup_dns_records_by_name) q
        | inl (items, read) ↦ rw (read, cleanup_dns_records_by_name) (records-keeps items s q)
      ]

  pub cleanup_rest-keeps :
      (ns name : Text) (s : S) → Q s → Q (cleanup_rest daemon_sets lb_ports dns_records ns name s).0
  unfolding cleanup_rest
  cleanup_rest-keeps ns name s q =
      continue_with-state Q (λ (_ : Unit {0}). cleanup_dns_records_by_name dns_records ns name)
        (cleanup_lb_ports lb_ports ns name s) (ports-keeps ns name s q)
        (λ _ t r. dns-keeps ns name t r)

  pub cleanup_by_name-keeps_all :
      (ns name : Text) (mode : CleanupMode) (s : S)
      → ((o : DaemonSet P) (s : S) → Q s → Q (daemon_sets.delete o s).0)
      → Q s
      → Q (cleanup_by_name daemon_sets lb_ports dns_records ns name mode s).0
  unfolding cleanup_by_name
  cleanup_by_name-keeps_all ns name mode s keeps_sets q =
      elim (Found-cases (daemon_sets.get (object_name ns name) s)) [
        | inr (inl missing) ↦ rw (missing, cleanup_by_name) (cleanup_rest-keeps ns name s q)
        | inr (inr (e, failed')) ↦ rw (failed', cleanup_by_name) q
        | inl (o, read) ↦ elim (Bool-cases (is_owned ns name o.labels)) [
          | inr foreign ↦ rw (read, cleanup_by_name, foreign) q
          | inl own ↦ elim (Bool-cases (is_deleted mode o.annotations)) [
            | inr preserved ↦
                rw (read, cleanup_by_name, own, preserved) (cleanup_rest-keeps ns name s q)
            | inl deleted ↦
                rw (read, cleanup_by_name, own, deleted)
                  (continue_with-state Q
                    (λ (_ : Unit {0}). cleanup_rest daemon_sets lb_ports dns_records ns name)
                    (wrapping (codes "delete daemonset")
                      (λ t. ignore_not_found tt (daemon_sets.delete o t)) s)
                    (subst Q (sym (ignore_not_found-state tt (daemon_sets.delete o s)))
                      (keeps_sets o s q))
                    (λ _ t r. cleanup_rest-keeps ns name t r))
          ]
        ]
      ]
