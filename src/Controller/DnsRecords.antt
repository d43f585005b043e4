-- ===== src/Controller/DnsRecords.antt =====
-- The DNS records of a Service: internal/controller/dnsrecord.go. Logging is left out.
pub mod Targets
use bulb.Base.{
  ℕ, if◌then◌else◌, Bool, true, false, not, ◌&&◌, List, [], ◌∷◌, ◌++◌, map, Text, codes, is_empty,
  text_discrete, text_less, contains, ite, Option, none, some, ℕ_discrete,
}
use bulb.Base.Sort.{sort}
use bulb.Base.Result.{
  M, Result, ok, err, wrap, wrapping, Found, found, not_found, failed, continue_with, query, return,
  ◌>>=◌, ◌>>◌,
}
use bulb.Api.{Labels, get_label, DnsRecord, DnsRecordSpec}
use bulb.Controller.Service.{
  Service, annotation_dns_name, service_labels, dns_record_name, dns_record_name_aaaa,
  label_managed_by, label_managed_by_v, label_service, label_service_ns,
}
use bulb.Controller.Cluster.{ObjectClient, ignore_not_found}
use bulb.Controller.LbPorts.{labels_equal, texts_discrete}

abbrev pub dns_type_a : Text
dns_type_a = codes "A"

abbrev pub dns_type_aaaa : Text
dns_type_aaaa = codes "AAAA"

unfoldable pub build_dns_record_always : Service → Text → Text → Text → List Text → DnsRecord
unfolding sort text_less service_labels
build_dns_record_always svc fqdn rec_type name targets = record {
  name = name;
  labels = service_labels svc;
  spec = record { fqdn = fqdn; record_type = rec_type; ttl = 60; targets = sort text_less targets };
}

-- A record, or none where there are no targets.
unfoldable pub build_dns_record : Service → Text → Text → Text → List Text → List DnsRecord
unfolding build_dns_record_always
build_dns_record svc fqdn rec_type name targets =
    if is_empty targets then [] else build_dns_record_always svc fqdn rec_type name targets ∷ []

-- An A record with no target where there would be no record at all.
unfoldable pub at_least_one : Service → Text → List DnsRecord → List DnsRecord
unfolding dns_record_name build_dns_record_always
at_least_one svc fqdn out =
    if is_empty out
    then build_dns_record_always svc fqdn dns_type_a (dns_record_name svc) [] ∷ []
    else out

-- `net.ParseIP` is a parameter: whether the text is an address, and whether `To4` knows it.
module _ (parse_ip : Text → Option Bool) where
  unfoldable pub split_by_family : List Text → List Text × List Text
  split_by_family [] = ([], [])
  split_by_family (raw ∷ ips) =
      let (v4, v6) = split_by_family ips in
      elim (parse_ip raw) [
        | none ↦ (v4, v6)
        | some four ↦ if four then (raw ∷ v4, v6) else (v4, raw ∷ v6)
      ]

  unfoldable pub build_dns_records : Service → List Text → List DnsRecord
  unfolding get_label split_by_family build_dns_record at_least_one dns_record_name
      dns_record_name_aaaa
  build_dns_records svc public_ips =
      let fqdn = get_label annotation_dns_name svc.annotations in
      if is_empty fqdn
      then []
      else let (v4, v6) = split_by_family public_ips in
        at_least_one svc fqdn (
          build_dns_record svc fqdn dns_type_a (dns_record_name svc) v4
          ++ build_dns_record svc fqdn dns_type_aaaa (dns_record_name_aaaa svc) v6)

unfoldable pub dns_spec_discrete : Discrete DnsRecordSpec
dns_spec_discrete = hlevel (ℕ_discrete, text_discrete, texts_discrete)

unfoldable pub dns_record_unchanged : DnsRecord → DnsRecord → Bool
dns_record_unchanged existing desired =
    ite (dns_spec_discrete existing.spec desired.spec) true false
    && labels_equal existing.labels desired.labels

abbrev pub dns_record_update : DnsRecord → DnsRecord → DnsRecord
dns_record_update existing desired = record existing {
  labels = desired.labels;
  spec = desired.spec;
}

module _ {S : Type 0} (client : ObjectClient S DnsRecord) where
  unfoldable pub apply_one_dns_record : DnsRecord → M S (Unit {0})
  apply_one_dns_record desired s = elim (client.get desired.name s) [
    | not_found ↦ wrapping (codes "create dnsrecord") (client.create desired) s
    | failed e ↦ (s, wrap (codes "get dnsrecord") (err e))
    | found existing ↦
        if dns_record_unchanged existing desired
        then (s, ok tt)
        else wrapping (codes "update dnsrecord")
            (client.update (dns_record_update existing desired)) s
  ]

  unfoldable pub apply_each_dns_record : List DnsRecord → M S (Unit {0})
  unfolding apply_one_dns_record
  apply_each_dns_record [] s = (s, ok tt)
  apply_each_dns_record (rec ∷ desired) s =
      continue_with (λ _. apply_each_dns_record desired) (apply_one_dns_record rec s)

  unfoldable pub delete_unwanted : List Text → List DnsRecord → M S (Unit {0})
  delete_unwanted wanted [] s = (s, ok tt)
  delete_unwanted wanted (item ∷ items) s =
      if contains text_discrete item.name wanted
      then delete_unwanted wanted items s
      else continue_with (λ _. delete_unwanted wanted items)
          (wrapping (codes "delete stale dnsrecord " ++ item.name)
            (λ t. ignore_not_found tt (client.delete item t)) s)

  unfoldable pub prune_unwanted_dns_records : Service → List Text → M S (Unit {0})
  unfolding delete_unwanted
  prune_unwanted_dns_records svc wanted = do
    items ←
        query (λ s. wrap (codes "list dnsrecords for prune") (client.list (service_labels svc) s))
    delete_unwanted wanted items

  unfoldable pub apply_dns_records : List DnsRecord → Service → M S (Unit {0})
  unfolding apply_each_dns_record prune_unwanted_dns_records
  apply_dns_records desired svc = do
    apply_each_dns_record desired
    prune_unwanted_dns_records svc (map (λ r. r.name) desired)

  unfoldable pub delete_dns_records : List DnsRecord → M S (Unit {0})
  delete_dns_records [] s = (s, ok tt)
  delete_dns_records (item ∷ items) s =
      continue_with (λ _. delete_dns_records items)
        (wrapping (codes "delete dnsrecord " ++ item.name)
          (λ t. ignore_not_found tt (client.delete item t)) s)

  unfoldable pub cleanup_dns_records_by_name : Text → Text → M S (Unit {0})
  unfolding delete_dns_records
  cleanup_dns_records_by_name svc_namespace svc_name = do
    items ← query (λ s. wrap (codes "list dnsrecords for cleanup") (
        client.list
          ((label_managed_by, label_managed_by_v)
            ∷ (label_service, svc_name)
            ∷ (label_service_ns, svc_namespace)
            ∷ [])
          s))
    delete_dns_records items
