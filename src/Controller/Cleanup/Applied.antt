-- ===== src/Controller/Cleanup/Applied.antt =====
-- What `applyDaemonSet` leaves on the API server.
use bulb.Base.{
  ◌≡◌, refl, sym, ap, ◌∙◌, ◌⊎◌, Bool, true, ◌&&◌, Text, Option, some, inl, inr, Bool-cases, arith,
}
use bulb.Base.Result.{ok}
use bulb.Controller.Cluster.{ObjectClient, IsObjectClient}
use bulb.Controller.LbPorts.{labels_equal}
use bulb.Controller.LbPorts.Applied.{Found-cases}
use bulb.Controller.Cleanup.{DaemonSet, apply_daemon_set}

module _ {S P : Type 0} (client : ObjectClient S (DaemonSet P)) (spec_eq : P → P → Bool)
    (view : S → Text → Option (DaemonSet P)) (laws : IsObjectClient (λ d. d.name) client view) where
  -- The comparison that saves an update.
  abbrev pub is_unchanged : DaemonSet P → DaemonSet P → Bool
  is_unchanged o desired =
      spec_eq o.spec desired.spec
      && (labels_equal o.labels desired.labels && labels_equal o.annotations desired.annotations)

  -- The DaemonSet is there, with the spec, labels and annotations that it is to have, or with such
  -- as compare equal to them.
  abbrev pub IsSetApplied : S → DaemonSet P → Type 0
  IsSetApplied s desired =
      (o : DaemonSet P) × (view s desired.name ≡ some o)
      × (((o.spec ≡ desired.spec)
            × (o.labels ≡ desired.labels)
            × (o.annotations ≡ desired.annotations))
          ⊎ (is_unchanged o desired ≡ true))

  pub apply_daemon_set-IsSetApplied :
      (desired : DaemonSet P) (s : S)
      → (apply_daemon_set client spec_eq desired s).1 ≡ ok tt
      → IsSetApplied (apply_daemon_set client spec_eq desired s).0 desired
  unfolding apply_daemon_set
  apply_daemon_set-IsSetApplied desired s done' = elim (Found-cases (client.get desired.name s)) [
    | inr (inl missing) ↦
        rw (missing, apply_daemon_set)
          (desired, laws.created desired s (ground arith), inl (refl, refl, refl))
    | inr (inr (e, failed')) ↦ absurd (ground arith)
    | inl (o, read) ↦
        let stored = laws.got desired.name s o read in
        let same = laws.named desired.name s o stored in
        elim (Bool-cases (is_unchanged o desired)) [
          | inl old ↦ rw (read, apply_daemon_set, old) (o, stored, inr old)
          | inr new ↦
              let next : DaemonSet P = record o {
                spec = desired.spec;
                labels = desired.labels;
                annotations = desired.annotations;
              } in
              let written = laws.updated next s (ground arith) in
              rw (read, apply_daemon_set, new)
                (next, ap (view _) (sym same) ∙ written, inl (refl, refl, refl))
        ]
  ]
