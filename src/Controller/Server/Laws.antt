-- ===== src/Controller/Server/Laws.antt =====
-- The clients of the whole API server keep what those of its stores document.
use bulb.Base.{Text, Option}
use bulb.Controller.Cluster.{ObjectClient, IsObjectClient}
use bulb.Controller.Pods.{DaemonSetSpec}
use bulb.Controller.Cleanup.{DaemonSet}
use bulb.Controller.Server.{Server, on_daemon_sets, all_daemon_sets}

module _ {D L N V W : Type 0} where
  pub all_daemon_sets-IsObjectClient :
      (client : ObjectClient D (DaemonSet DaemonSetSpec))
      (view : D → Text → Option (DaemonSet DaemonSetSpec))
      → IsObjectClient (λ d. d.name) client view
      → IsObjectClient {S = Server D L N V W}
          (λ d. d.name)
          (all_daemon_sets client)
          (λ s. view s.daemon_sets)
  unfolding all_daemon_sets on_daemon_sets
  all_daemon_sets-IsObjectClient client view laws = record {
    got = λ n s. laws.got n s.daemon_sets;
    got_none = λ n s. laws.got_none n s.daemon_sets;
    named = λ n s. laws.named n s.daemon_sets;
    created = λ o s. laws.created o s.daemon_sets;
    create_other = λ o s. laws.create_other o s.daemon_sets;
    updated = λ o s. laws.updated o s.daemon_sets;
    update_other = λ o s. laws.update_other o s.daemon_sets;
    deleted = λ o s. laws.deleted o s.daemon_sets;
    delete_missing = λ o s. laws.delete_missing o s.daemon_sets;
    delete_other = λ o s. laws.delete_other o s.daemon_sets;
  }
