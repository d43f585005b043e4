-- ===== src/Controller/Cleanup/Gone.antt =====
-- A cleanup that succeeds leaves no DaemonSet of the Service but one that is to be kept.
use bulb.Base.{
  ◌≡◌, sym, ap, ◌∙◌, true, false, Text, codes, Option, none, some, inl, inr, Bool-cases, arith,
}
use mathlib.Core.Bool.{false≢true}
use bulb.Base.Result.{ok, ok≢err, continue_with-elim, wrapping, wrap-eq-ok}
use bulb.Api.{LbPort, DnsRecord}
use bulb.Controller.Service.{object_name}
use bulb.Controller.Cluster.{ObjectClient, IsObjectClient, ignore_not_found}
use bulb.Controller.LbPorts.Applied.{Found-cases}
use bulb.Controller.Cleanup.{
  DaemonSet, CleanupMode, is_owned, is_deleted, cleanup_rest, cleanup_by_name,
}
use bulb.Controller.Cleanup.Frame.{ignore_not_found-state, cleanup_rest-keeps}
use bulb.Controller.Cleanup.Owned.{IsApart}

module _ {S P : Type 0} (daemon_sets : ObjectClient S (DaemonSet P))
    (lb_ports : ObjectClient S LbPort) (dns_records : ObjectClient S DnsRecord)
    (view : S → Text → Option (DaemonSet P)) (laws : IsObjectClient (λ d. d.name) daemon_sets view)
    (ports_apart : IsApart lb_ports view) (dns_apart : IsApart dns_records view) where
  delete_gone :
      (o : DaemonSet P) (s : S)
      → (ignore_not_found tt (daemon_sets.delete o s)).1 ≡ ok tt
      → view (daemon_sets.delete o s).0 o.name ≡ none
  delete_gone o s h = elim (Found-cases (daemon_sets.delete o s).1) [
    | inl (_, e) ↦ laws.deleted o s e
    | inr (inl e) ↦ laws.delete_missing o s e
    | inr (inr (e, f)) ↦ absurd (ground arith)
  ]

  rest-none :
      (ns name : Text) (s : S) (n : Text)
      → view s n ≡ none
      → view (cleanup_rest daemon_sets lb_ports dns_records ns name s).0 n ≡ none
  rest-none ns name s n =
      cleanup_rest-keeps daemon_sets lb_ports dns_records (λ (t : S). view t n ≡ none)
        (λ o t h. ports_apart o t n ∙ h) (λ o t h. dns_apart o t n ∙ h) ns name s

  -- A DaemonSet of the Service that has its name is one that is to be kept.
  abbrev pub IsGone : CleanupMode → Text → Text → S → Type 0
  IsGone mode ns name t =
      (d : DaemonSet P)
      → view t (object_name ns name) ≡ some d
      → is_owned ns name d.labels ≡ true
      → is_deleted mode d.annotations ≡ false

  none-IsGone :
      (mode : CleanupMode) (ns name : Text) (t : S)
      → view t (object_name ns name) ≡ none
      → IsGone mode ns name t
  none-IsGone mode ns name t h d e own = cc

  kept-IsGone :
      (mode : CleanupMode) (ns name : Text) (t : S) (o : DaemonSet P)
      → view t (object_name ns name) ≡ some o
      → (is_owned ns name o.labels ≡ true → is_deleted mode o.annotations ≡ false)
      → IsGone mode ns name t
  kept-IsGone mode ns name t o stored kept d e own =
      let same : some o ≡ some d = sym stored ∙ e in
      let equal : o ≡ d = cc in
      ap (λ (x : DaemonSet P). is_deleted mode x.annotations) (sym equal)
      ∙ kept (ap (λ (x : DaemonSet P). is_owned ns name x.labels) equal ∙ own)

  rest-some :
      (ns name : Text) (s : S) (n : Text) (o : DaemonSet P)
      → view s n ≡ some o
      → view (cleanup_rest daemon_sets lb_ports dns_records ns name s).0 n ≡ some o
  rest-some ns name s n o =
      cleanup_rest-keeps daemon_sets lb_ports dns_records (λ (t : S). view t n ≡ some o)
        (λ o t h. ports_apart o t n ∙ h) (λ o t h. dns_apart o t n ∙ h) ns name s

  pub cleanup_by_name-IsGone :
      (mode : CleanupMode) (ns name : Text) (s : S)
      → (cleanup_by_name daemon_sets lb_ports dns_records ns name mode s).1 ≡ ok tt
      → IsGone mode ns name (cleanup_by_name daemon_sets lb_ports dns_records ns name mode s).0
  unfolding cleanup_by_name
  cleanup_by_name-IsGone mode ns name s h =
      let at_name = object_name ns name in
      elim (Found-cases (daemon_sets.get at_name s)) [
        | inr (inl missing) ↦
            rw (missing, cleanup_by_name)
              (none-IsGone mode ns name _
                (rest-none ns name s at_name (laws.got_none at_name s missing)))
        | inr (inr (e, failed')) ↦ absurd (ok≢err (sym (rw (failed', cleanup_by_name) at h)))
        | inl (o, read) ↦
            let stored = laws.got at_name s o read in
            let named = laws.named at_name s o stored in
            elim (Bool-cases (is_owned ns name o.labels)) [
              | inr foreign ↦
                  rw (read, cleanup_by_name, foreign)
                    (kept-IsGone mode ns name s o stored
                      λ own. absurd (false≢true (sym foreign ∙ own)))
              | inl own ↦ elim (Bool-cases (is_deleted mode o.annotations)) [
                | inr preserved ↦
                    rw (read, cleanup_by_name, own, preserved)
                      (kept-IsGone mode ns name _ o (rest-some ns name s at_name o stored)
                        (λ _. preserved))
                | inl deleted ↦
                    rw (read, cleanup_by_name, own, deleted)
                      (continue_with-elim (λ r. IsGone mode ns name r.0)
                        (λ (_ : Unit {0}). cleanup_rest daemon_sets lb_ports dns_records ns name)
                        (wrapping (codes "delete daemonset")
                          (λ t. ignore_not_found tt (daemon_sets.delete o t)) s)
                        tt (rw (read, cleanup_by_name, own, deleted) at h)
                        λ _ gone rest. none-IsGone mode ns name _ (
                          rest-none ns name _ at_name (
                            ap (λ t. view t at_name)
                              (ignore_not_found-state tt (daemon_sets.delete o s))
                            ∙ ap (view (daemon_sets.delete o s).0) (sym named)
                            ∙ delete_gone o s (wrap-eq-ok (codes "delete daemonset") _ gone))))
              ]
            ]
      ]
