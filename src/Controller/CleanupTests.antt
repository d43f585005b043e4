-- ===== src/Controller/CleanupTests.antt =====
-- A cleanup on an API server that has a list of objects of each kind.
use bulb.Base.{ℕ, ◌≡◌, refl, List, [], ◌∷◌, Text, codes, text_discrete, Option, some, inr}
use bulb.Api.{Labels, get_label, LbPort, DnsRecord}
use bulb.Controller.Service.{object_name}
use bulb.Controller.Cluster.{ObjectClient, IsObjectClient}
use bulb.Controller.Samples.{sample_client, sample_laws, find_object}
use bulb.Controller.Cleanup.{DaemonSet, force_delete, is_owned, cleanup_by_name}
use bulb.Controller.Cleanup.Owned.{cleanup_by_name-keeps}

record Server : Type 0 where
  sets : List (DaemonSet ℕ)
  ports : List LbPort
  records : List DnsRecord

abbrev set_name : DaemonSet ℕ → Text
set_name d = d.name

abbrev set_labels : DaemonSet ℕ → Labels
set_labels d = d.labels

abbrev set_list : ObjectClient (List (DaemonSet ℕ)) (DaemonSet ℕ)
set_list = sample_client set_name set_labels

abbrev port_list : ObjectClient (List LbPort) LbPort
port_list = sample_client (λ l. l.name) (λ l. l.labels)

abbrev record_list : ObjectClient (List DnsRecord) DnsRecord
record_list = sample_client (λ r. r.name) (λ r. r.labels)

unfoldable sets_client : ObjectClient Server (DaemonSet ℕ)
sets_client = record {
  get = λ n s. set_list.get n s.sets;
  list = λ l s. set_list.list l s.sets;
  create = λ o s. let (x, r) = set_list.create o s.sets in (record s { sets = x }, r);
  update = λ o s. let (x, r) = set_list.update o s.sets in (record s { sets = x }, r);
  delete = λ o s. let (x, r) = set_list.delete o s.sets in (record s { sets = x }, r);
}

unfoldable ports_client : ObjectClient Server LbPort
ports_client = record {
  get = λ n s. port_list.get n s.ports;
  list = λ l s. port_list.list l s.ports;
  create = λ o s. let (x, r) = port_list.create o s.ports in (record s { ports = x }, r);
  update = λ o s. let (x, r) = port_list.update o s.ports in (record s { ports = x }, r);
  delete = λ o s. let (x, r) = port_list.delete o s.ports in (record s { ports = x }, r);
}

unfoldable records_client : ObjectClient Server DnsRecord
records_client = record {
  get = λ n s. record_list.get n s.records;
  list = λ l s. record_list.list l s.records;
  create = λ o s. let (x, r) = record_list.create o s.records in (record s { records = x }, r);
  update = λ o s. let (x, r) = record_list.update o s.records in (record s { records = x }, r);
  delete = λ o s. let (x, r) = record_list.delete o s.records in (record s { records = x }, r);
}

abbrev set_view : Server → Text → Option (DaemonSet ℕ)
set_view s n = find_object set_name set_labels n s.sets

sets_laws : IsObjectClient set_name sets_client set_view
unfolding sets_client
sets_laws =
    let laws = sample_laws set_name set_labels in
    record {
      got = λ n s o h. laws.got n s.sets o h;
      got_none = λ n s h. laws.got_none n s.sets h;
      named = λ n s o h. laws.named n s.sets o h;
      created = λ o s h. laws.created o s.sets h;
      create_other = λ o s n ne. laws.create_other o s.sets n ne;
      updated = λ o s h. laws.updated o s.sets h;
      update_other = λ o s n ne. laws.update_other o s.sets n ne;
      deleted = λ o s h. laws.deleted o s.sets h;
      delete_missing = λ o s h. laws.delete_missing o s.sets h;
      delete_other = λ o s n ne. laws.delete_other o s.sets n ne;
    }

-- A DaemonSet with the Service's name, but without its labels.
abbrev foreign : DaemonSet ℕ
foreign = record { name = codes "bulb-default-web"; labels = []; annotations = []; spec = 7 }

abbrev server : Server
server = record { sets = foreign ∷ []; ports = []; records = [] }

cleanup_by_name-keeps_example :
    set_view
      (cleanup_by_name sets_client ports_client records_client
        (codes "default")
        (codes "web")
        force_delete
        server).0
      (codes "bulb-default-web")
    ≡ some foreign
unfolding text_discrete is_owned object_name get_label sets_client ports_client records_client
cleanup_by_name-keeps_example =
    cleanup_by_name-keeps sets_client ports_client records_client set_view sets_laws (λ o s n. refl)
      (λ o s n. refl) (codes "default") (codes "web") force_delete server (codes "bulb-default-web")
      foreign refl (inr refl)
