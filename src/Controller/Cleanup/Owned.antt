-- ===== src/Controller/Cleanup/Owned.antt =====
-- The cleanup deletes no DaemonSet but the Service's own.
use mathlib.Core.Bool.{false≢true}
use bulb.Base.{
  ◌≡◌, ◌≢◌, refl, sym, ap, ◌∙◌, ◌⊎◌, true, false, Text, codes, Option, some, arith, inl, inr,
  Bool-cases,
}
use bulb.Base.Result.{continue_with, continue_with-state, wrapping}
use bulb.Api.{LbPort, DnsRecord}
use bulb.Controller.Service.{object_name}
use bulb.Controller.Cluster.{ObjectClient, IsObjectClient, ignore_not_found}
use bulb.Controller.Cleanup.Frame.{cleanup_rest-keeps}
use bulb.Controller.LbPorts.Applied.{Found-cases}
use bulb.Controller.Cleanup.{
  DaemonSet, CleanupMode, is_owned, is_deleted, cleanup_rest, cleanup_by_name,
}

-- A delete of one kind of object leaves the DaemonSets alone.
abbrev pub IsApart :
    {S O P : Type 0} → ObjectClient S O → (S → Text → Option (DaemonSet P)) → Type 0
IsApart {S} {O} {P} client view =
    (o : O) (s : S) (n : Text) → view (client.delete o s).0 n ≡ view s n

module _ {S P : Type 0} (daemon_sets : ObjectClient S (DaemonSet P))
    (lb_ports : ObjectClient S LbPort) (dns_records : ObjectClient S DnsRecord)
    (view : S → Text → Option (DaemonSet P)) (laws : IsObjectClient (λ d. d.name) daemon_sets view)
    (ports_apart : IsApart lb_ports view) (dns_apart : IsApart dns_records view) where
  rest-frame :
      (ns name : Text) (s : S) (n : Text)
      → view (cleanup_rest daemon_sets lb_ports dns_records ns name s).0 n ≡ view s n
  rest-frame ns name s n =
      cleanup_rest-keeps daemon_sets lb_ports dns_records (λ (t : S). view t n ≡ view s n)
        (λ o t h. ports_apart o t n ∙ h) (λ o t h. dns_apart o t n ∙ h) ns name s refl

  -- The call that deletes a DaemonSet, and what follows it.
  delete-frame :
      (ns name : Text) (o : DaemonSet P) (s : S) (n : Text)
      → n ≢ o.name
      → view
          (continue_with
            (λ (_ : Unit {0}). cleanup_rest daemon_sets lb_ports dns_records ns name)
            (wrapping
              (codes "delete daemonset")
              (λ t. ignore_not_found tt (daemon_sets.delete o t))
              s)).0
          n
        ≡ view s n
  delete-frame ns name o s n ne =
      continue_with-state (λ (t : S). view t n ≡ view s n)
        (λ (_ : Unit {0}). cleanup_rest daemon_sets lb_ports dns_records ns name)
        (wrapping (codes "delete daemonset") (λ t. ignore_not_found tt (daemon_sets.delete o t)) s)
        (ground (arith, laws.delete_other o s n ne)) (λ _ t h. rest-frame ns name t n ∙ h)

  other_name :
      (ns name n : Text) (o ds : DaemonSet P) (s : S)
      → (n ≢ object_name ns name) ⊎ (is_owned ns name ds.labels ≡ false)
      → is_owned ns name o.labels ≡ true
      → o.name ≡ object_name ns name
      → view s n ≡ some ds
      → view s (object_name ns name) ≡ some o
      → n ≡ o.name
      → ⊥
  other_name ns name n o ds s (inl ne) own named stored at_name e = ne (e ∙ named)
  other_name ns name n o ds s (inr foreign) own named stored at_name e =
      let both : some o ≡ some ds = sym at_name ∙ ap (view s) (sym (e ∙ named)) ∙ stored in
      let same : o ≡ ds = cc in
      false≢true
        (sym foreign ∙ ap (λ (d : DaemonSet P). is_owned ns name d.labels) (sym same) ∙ own)

  -- Whatever fails, and in either mode, the cleanup of a Service leaves every DaemonSet as it is
  -- that has another name than the Service's own, or has not the Service's labels.
  pub cleanup_by_name-keeps :
      (ns name : Text) (mode : CleanupMode) (s : S) (n : Text) (ds : DaemonSet P)
      → view s n ≡ some ds
      → (n ≢ object_name ns name) ⊎ (is_owned ns name ds.labels ≡ false)
      → view (cleanup_by_name daemon_sets lb_ports dns_records ns name mode s).0 n ≡ some ds
  unfolding cleanup_by_name
  cleanup_by_name-keeps ns name mode s n ds stored kept =
      elim (Found-cases (daemon_sets.get (object_name ns name) s)) [
        | inr (inl missing) ↦ rw (missing, cleanup_by_name) (rest-frame ns name s n ∙ stored)
        | inr (inr (e, failed')) ↦ rw (failed', cleanup_by_name) stored
        | inl (o, read) ↦
            let at_name = laws.got (object_name ns name) s o read in
            let named = laws.named (object_name ns name) s o at_name in
            elim (Bool-cases (is_owned ns name o.labels)) [
              | inr foreign ↦ rw (read, cleanup_by_name, foreign) stored
              | inl own ↦
                  let ne : n ≢ o.name =
                    λ e. other_name ns name n o ds s kept own named stored at_name e in
                  elim (Bool-cases (is_deleted mode o.annotations)) [
                    | inl deleted ↦
                        rw (read, cleanup_by_name, own, deleted)
                          (delete-frame ns name o s n ne ∙ stored)
                    | inr preserved ↦
                        rw (read, cleanup_by_name, own, preserved) (rest-frame ns name s n ∙ stored)
                  ]
            ]
      ]
