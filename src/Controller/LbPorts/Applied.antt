-- ===== src/Controller/LbPorts/Applied.antt =====
-- What `applyLBPorts` leaves on the API server.
use bulb.Base.{
  ◌≡◌, ◌≢◌, refl, sym, ap, ◌∙◌, ◌⊎◌, true, false, List, [], ◌∷◌, subst, Text, codes, text_discrete,
  arith, Option, none, some, contains, inl, inr, Bool-cases, All, All-imp, if_pos,
}
use mathlib.Core.Bool.{false≢true}
use bulb.Base.Result.{
  M, ok, wrap, Found, found, not_found, failed, continue_with, continue_with-ok,
  continue_with_of_ok, continue_with_of_err, Result-cases, ok≢err,
}
use bulb.Api.{LbPort, names_of, DistinctNames}
use bulb.Controller.Service.{Service, service_labels}
use bulb.Controller.Cluster.{ObjectClient, IsObjectClient, ignore_not_found}
use bulb.Controller.LbPorts.{
  lb_port_unchanged, labels_equal, lb_port_update, apply_lb_port, apply_desired, delete_stale,
  apply_lb_ports,
}

pub Found-cases {ℓ} :
    {A : Type ℓ} (r : Found A)
    → ((a : A) × (r ≡ found a)) ⊎ (r ≡ not_found) ⊎ ((e : Text) × (r ≡ failed e))
Found-cases (found a) = inl (a, refl)
Found-cases not_found = inr (inl refl)
Found-cases (failed e) = inr (inr (e, refl))

module _ {S : Type 0} (client : ObjectClient S LbPort) (view : S → Text → Option LbPort)
    (laws : IsObjectClient (λ l. l.name) client view) where
  -- The API server holds the LBPort as it is wanted: its spec, and its labels.
  abbrev pub IsApplied : S → LbPort → Type 0
  IsApplied s want =
      (o : LbPort) × (view s want.name ≡ some o)
      × (o.spec ≡ want.spec)
      × ((o.labels ≡ want.labels) ⊎ (labels_equal o.labels want.labels ≡ true))

  unchanged_lem :
      (o want : LbPort)
      → lb_port_unchanged o want ≡ true
      → (o.spec ≡ want.spec) × (labels_equal o.labels want.labels ≡ true)
  unfolding lb_port_unchanged
  unchanged_lem o want h = (ground arith, ground arith)

  apply_one-other :
      (want : LbPort) (s : S) (n : Text)
      → n ≢ want.name
      → view (apply_lb_port client want s).0 n ≡ view s n
  unfolding apply_lb_port
  apply_one-other want s n ne = elim (Found-cases (client.get want.name s)) [
    | inr (inl none') ↦ rw (none', apply_lb_port) (laws.create_other want s n ne)
    | inr (inr (e, failed')) ↦ rw (failed', apply_lb_port)
    | inl (o, found') ↦
        let same = laws.named want.name s o (laws.got want.name s o found') in
        ground (arith, same, laws.update_other (lb_port_update o want) s n)
  ]

  apply_one-done :
      (want : LbPort) (s : S)
      → (apply_lb_port client want s).1 ≡ ok tt
      → IsApplied (apply_lb_port client want s).0 want
  unfolding apply_lb_port
  apply_one-done want s done = elim (Found-cases (client.get want.name s)) [
    | inr (inl none') ↦
        rw (none', apply_lb_port) (want, laws.created want s (ground arith), refl, inl refl)
    | inr (inr (e, failed')) ↦ absurd (ground arith)
    | inl (o, found') ↦
        let stored = laws.got want.name s o found' in
        let same = laws.named want.name s o stored in
        elim (Bool-cases (lb_port_unchanged o want)) [
          | inl old ↦
              let equal = unchanged_lem o want old in
              rw (found', apply_lb_port, old) (o, stored, equal.0, inr equal.1)
          | inr new ↦
              let written = laws.updated (lb_port_update o want) s (ground arith) in
              rw (found', apply_lb_port, new)
                (lb_port_update o want, ap (view _) (sym same) ∙ written, refl, inl refl)
        ]
  ]

  desired-other :
      (desired : List LbPort) (s : S) (n : Text)
      → contains text_discrete n (names_of desired) ≡ false
      → view (apply_desired client desired s).0 n ≡ view s n
  unfolding apply_desired
  desired-other [] s n h = refl
  desired-other (want ∷ desired) s n h =
      let ne =
        λ (e : n ≡ want.name). false≢true (sym h ∙ if_pos (text_discrete n want.name) e true _) in
      ground (
        arith,
        apply_one-other want s n ne,
        desired-other desired (apply_lb_port client want s).0 n,
      )

  desired-done :
      (desired : List LbPort) (s : S)
      → DistinctNames desired
      → (apply_desired client desired s).1 ≡ ok tt
      → All (IsApplied (apply_desired client desired s).0) desired
  unfolding apply_desired
  desired-done [] s d done = tt
  desired-done (want ∷ desired) s (fresh, d) done =
      let (_, first, rest, same) =
        continue_with-ok (λ _. apply_desired client desired) (apply_lb_port client want s) done in
      let (o, stored, spec, labels) = apply_one-done want s first in
      let s' = (apply_lb_port client want s).0 in
      subst (λ r. All (IsApplied r.0) (want ∷ desired)) (sym same)
        (
          (o, desired-other desired s' want.name fresh ∙ stored, spec, labels),
          desired-done desired s' d rest,
        )

  stale-other :
      (wanted : List Text) (items : List LbPort) (s : S) (n : Text)
      → (contains text_discrete n wanted ≡ true)
        ⊎ (contains text_discrete n (names_of items) ≡ false)
      → view (delete_stale client wanted items s).0 n ≡ view s n
  unfolding delete_stale
  stale-other wanted [] s n h = refl
  stale-other wanted (item ∷ items) s n h = ground (
    arith,
    laws.delete_other item s n,
    stale-other wanted items s n,
    stale-other wanted items (client.delete item s).0 n,
  )

  -- What a call of `Delete` that does not fail leaves under the object's name.
  delete_gone :
      (item : LbPort) (s : S)
      → (ignore_not_found tt (client.delete item s)).1 ≡ ok tt
      → view (client.delete item s).0 item.name ≡ none
  delete_gone item s h = elim (Found-cases (client.delete item s).1) [
    | inl (_, e) ↦ laws.deleted item s e
    | inr (inl e) ↦ laws.delete_missing item s e
    | inr (inr (e, f)) ↦ absurd (ground arith)
  ]

  stale-none :
      (wanted : List Text) (items : List LbPort) (s : S) (n : Text)
      → (delete_stale client wanted items s).1 ≡ ok tt
      → view s n ≡ none
      → view (delete_stale client wanted items s).0 n ≡ none
  unfolding delete_stale
  stale-none wanted [] s n done gone = gone
  stale-none wanted (item ∷ items) s n done gone = elim (text_discrete n item.name) [
    | yes e ↦ ground (
      arith,
      delete_gone item s,
      stale-none wanted items s n,
      stale-none wanted items (client.delete item s).0 n,
    )
    | no ne ↦ ground (
      arith,
      laws.delete_other item s n ne,
      stale-none wanted items s n,
      stale-none wanted items (client.delete item s).0 n,
    )
  ]

  stale-gone :
      (wanted : List Text) (items : List LbPort) (s : S) (n : Text)
      → (delete_stale client wanted items s).1 ≡ ok tt
      → contains text_discrete n wanted ≡ false
      → contains text_discrete n (names_of items) ≡ true
      → view (delete_stale client wanted items s).0 n ≡ none
  unfolding delete_stale
  stale-gone wanted [] s n done h k = cc
  stale-gone wanted (item ∷ items) s n done h k = elim (text_discrete n item.name) [
    | yes e ↦ ground (arith, delete_gone item s, stale-none wanted items (client.delete item s).0 n)
    | no ne ↦
        ground
          (arith, stale-gone wanted items s n, stale-gone wanted items (client.delete item s).0 n)
  ]

  -- The API server after `applyLBPorts`, `items` being the LBPorts with the Service's labels: what
  -- is wanted is there, what carries the labels beside that is gone, and all else is as before.
  pub record IsSynced (desired items : List LbPort) (before after : S) : Type 0 where
    pub wanted : All (IsApplied after) desired
    pub stale :
        (n : Text)
        → contains text_discrete n (names_of desired) ≡ false
        → contains text_discrete n (names_of items) ≡ true
        → view after n ≡ none
    pub rest :
        (n : Text)
        → contains text_discrete n (names_of desired) ≡ false
        → contains text_discrete n (names_of items) ≡ false
        → view after n ≡ view before n

  stale-applied :
      (all desired items : List LbPort) (s : S)
      → All (λ l. contains text_discrete l.name (names_of all) ≡ true) desired
      → All (IsApplied s) desired
      → All (IsApplied (delete_stale client (names_of all) items s).0) desired
  stale-applied all [] items s c h = tt
  stale-applied all (want ∷ desired) items s (c, cs) ((o, stored, spec, labels), h) = (
    (o, stale-other (names_of all) items s want.name (inl c) ∙ stored, spec, labels),
    stale-applied all desired items s cs h,
  )

  all_contained :
      (all : List LbPort) → All (λ l. contains text_discrete l.name (names_of all) ≡ true) all
  all_contained [] = tt
  all_contained (l ∷ all) = (
    if_pos (text_discrete l.name l.name) refl true _,
    All-imp _ _ all (λ k c. ground (arith, c)) (all_contained all),
  )

  abbrev pub second_loop : List LbPort → Service → Unit {0} → M S (Unit {0})
  second_loop desired svc _ s =
      continue_with (delete_stale client (names_of desired))
        (s, wrap (codes "list lbports") (client.list (service_labels svc) s))

  -- With the list read, what is left of a run that succeeds is the second loop.
  apply_lb_ports-ok :
      (desired : List LbPort) (svc : Service) (s : S) (items : List LbPort)
      → (apply_lb_ports client desired svc s).1 ≡ ok tt
      → client.list (service_labels svc) (apply_desired client desired s).0 ≡ ok items
      → ((apply_desired client desired s).1 ≡ ok tt)
        × (apply_lb_ports client desired svc s
            ≡ delete_stale client (names_of desired) items (apply_desired client desired s).0)
  unfolding apply_lb_ports
  apply_lb_ports-ok desired svc s items done listed =
      elim (Result-cases (apply_desired client desired s).1) [
        | inl (_, e) ↦ (
          e,
          continue_with_of_ok (second_loop desired svc) (apply_desired client desired s) e
              ∙ ap
                  (λ r.
                    continue_with (delete_stale client (names_of desired))
                      ((apply_desired client desired s).0, wrap (codes "list lbports") r))
                  listed,
        )
        | inr (m, e) ↦ absurd (
            ok≢err (
              sym done
              ∙ ap (λ r. r.1)
                  (continue_with_of_err (second_loop desired svc) (apply_desired client desired s)
                    e)))
      ]

  -- `applyLBPorts` without an error, the wanted LBPorts having different names: each of them is on
  -- the API server with its spec and labels, each other one that the list by the Service's labels
  -- returned is gone, and no further LBPort has changed.
  pub apply_lb_ports-IsSynced :
      (desired : List LbPort) (svc : Service) (s : S) (items : List LbPort)
      → DistinctNames desired
      → (apply_lb_ports client desired svc s).1 ≡ ok tt
      → client.list (service_labels svc) (apply_desired client desired s).0 ≡ ok items
      → IsSynced desired items s (apply_lb_ports client desired svc s).0
  apply_lb_ports-IsSynced desired svc s items d done listed =
      let (first, same) = apply_lb_ports-ok desired svc s items done listed in
      let s' = (apply_desired client desired s).0 in
      let all = names_of desired in
      let last = ap (λ r. r.1) (sym same) ∙ done in
      subst (λ r. IsSynced desired items s r.0) (sym same)
        record {
          wanted =
              stale-applied desired desired items s' (all_contained desired)
                (desired-done desired s d first);
          stale = λ n h k. stale-gone all items s' n last h k;
          rest = λ n h k. stale-other all items s' n (inr k) ∙ desired-other desired s n h;
        }
