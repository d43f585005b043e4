-- ===== src/Controller/LbPorts/Names.antt =====
-- The names of a Service's LBPorts: different ports have different names.
use mathlib.Core.List.{Nodup, Nodup-cons, append_cancel_left}
use bulb.Base.{
  ◌≡◌, refl, sym, ap, ◌∙◌, if◌then◌else◌, true, List, [], ◌∷◌, ◌++◌, map, Text, codes,
  text_discrete, to_lower, is_empty, decimal, cut_at, cut_at-append, contains, Bool-cases, inl, inr,
  contains-iff-mem, Option-cases, subst, Option, none, some, if_pos, if_neg,
}
use bulb.Base.Hosts.{decimal-IsFree}
use bulb.Base.Result.{Result, ok, ok≢err, Found, Result-cases}
use bulb.Api.{LbPort, names_of, DistinctNames}
use bulb.Controller.Service.{Service, ServicePort, lb_port_name}
use bulb.Controller.Conflicts.{
  PortConflict, port_key, normalized_protocol, detect_port_conflict,
  duplicate_service_port_conflict,
}
use bulb.Controller.Conflicts.Duplicates.{key_of, duplicate-eq-none_iff}
use bulb.Controller.LbPorts.{Node, Selectors, build_lb_port, build_lb_ports, lb_port_nodes}

-- The protocol as it stands in the name.
abbrev name_protocol : ServicePort → Text
name_protocol p =
    if is_empty (to_lower p.protocol) then to_lower (codes "TCP") else to_lower p.protocol

normalized_lem :
    (protocol : Text)
    → to_lower (normalized_protocol (if is_empty protocol then codes "TCP" else protocol))
      ≡ (if is_empty (to_lower protocol) then to_lower (codes "TCP") else to_lower protocol)
unfolding to_lower normalized_protocol
normalized_lem [] = refl
normalized_lem (c ∷ s) = refl

-- The name ends in the port and the protocol.
suffix_lem :
    (svc : Service) (p q : ServicePort)
    → lb_port_name svc p ≡ lb_port_name svc q
    → decimal p.port ++ 45 ∷ name_protocol p ≡ decimal q.port ++ 45 ∷ name_protocol q
unfolding lb_port_name
suffix_lem svc p q h = append_cancel_left (codes "-") _ _ (
    append_cancel_left svc.name _ _ (
      append_cancel_left (codes "-") _ _
        (append_cancel_left svc.namespace _ _ (append_cancel_left (codes "bulb-") _ _ h))))

abbrev first_of : Option (Text × Text) → Text
first_of (some (a, b)) = a
first_of none = []

abbrev second_of : Option (Text × Text) → Text
second_of (some (a, b)) = b
second_of none = []

module _ (svc : Service) (nodes : List Text) where
  name-key :
      (p q : ServicePort)
      → lb_port_name svc p ≡ lb_port_name svc q
      → key_of (build_lb_port svc nodes p) ≡ key_of (build_lb_port svc nodes q)
  unfolding build_lb_port port_key
  name-key p q h =
      let cut = λ (r : ServicePort).
        cut_at-append 45 (decimal r.port) (name_protocol r) (decimal-IsFree 45 r.port refl) in
      let same = sym (cut p) ∙ ap (cut_at 45) (suffix_lem svc p q h) ∙ cut q in
      let protocols =
        normalized_lem p.protocol ∙ ap second_of same ∙ sym (normalized_lem q.protocol) in
      λ i. ap first_of same i ++ (47 ∷ protocols i)

  contains-key :
      (p : ServicePort) (ps : List ServicePort)
      → contains text_discrete (lb_port_name svc p) (names_of (map (build_lb_port svc nodes) ps))
        ≡ true
      → contains text_discrete
          (key_of (build_lb_port svc nodes p))
          (map key_of (map (build_lb_port svc nodes) ps))
        ≡ true
  unfolding build_lb_port
  contains-key p [] h = cc
  contains-key p (q ∷ ps) h = elim (text_discrete (lb_port_name svc p) (lb_port_name svc q)) [
    | yes e ↦ if_pos (text_discrete _ _) (name-key p q e) true _
    | no ne ↦
        let rest = contains-key p ps (sym (if_neg (text_discrete _ _) ne true _) ∙ h) in
        elim (text_discrete (key_of (build_lb_port svc nodes p))
          (key_of (build_lb_port svc nodes q))) [
            | yes e ↦ if_pos (text_discrete _ _) e true _
            | no other ↦ if_neg (text_discrete _ _) other true _ ∙ rest
          ]
  ]

  -- Ports with different numbers or protocols make LBPorts with different names.
  pub build-DistinctNames :
      (ps : List ServicePort)
      → Nodup (map key_of (map (build_lb_port svc nodes) ps))
      → DistinctNames (map (build_lb_port svc nodes) ps)
  unfolding build_lb_port
  build-DistinctNames [] h = tt
  build-DistinctNames (p ∷ ps) h = (
    elim (Bool-cases (
        contains text_discrete (lb_port_name svc p)
          (names_of (map (build_lb_port svc nodes) ps)))) [
            | inr absent ↦ absent
            | inl met ↦ absurd (
                (Nodup-cons.0 h).0 ((contains-iff-mem text_discrete _ _).0 (contains-key p ps met)))
          ],
    build-DistinctNames ps (Nodup-cons.0 h).1,
  )

module _ (build : Service → Result (List LbPort)) (get : Text → Found LbPort)
    (services : Result (List Service)) where
  no_duplicate :
      (svc : Service) (lbports : List LbPort)
      → detect_port_conflict build get services svc lbports ≡ ok none
      → duplicate_service_port_conflict svc lbports ≡ none
  unfolding detect_port_conflict
  no_duplicate svc lbports free =
      elim (Option-cases (duplicate_service_port_conflict svc lbports)) [
        | inl e ↦ e
        | inr (c, is) ↦
            let met : ◌≡◌ {A = Result (Option PortConflict)} (ok (some c)) (ok none) =
              rw (is, detect_port_conflict) at free in
            absurd (cc)
      ]

-- A Service that has no conflict has LBPorts of different names.
pub free-DistinctNames :
    (selectors : Selectors) (nodes : Result (List Node)) (svc : Service) (lbports : List LbPort)
    (get : Text → Found LbPort) (services : Result (List Service))
    → build_lb_ports selectors nodes svc ≡ ok lbports
    → detect_port_conflict (build_lb_ports selectors nodes) get services svc lbports ≡ ok none
    → DistinctNames lbports
unfolding build_lb_ports detect_port_conflict
free-DistinctNames selectors nodes svc lbports get services built free =
    elim (Result-cases (lb_port_nodes selectors nodes svc)) [
      | inr (e, failed') ↦ absurd (ok≢err (sym (rw (failed', build_lb_ports) at built)))
      | inl (names, read) ↦
          let same : ok (map (build_lb_port svc names) svc.ports) ≡ ok lbports =
            rw (read, build_lb_ports) at built in
          let e : map (build_lb_port svc names) svc.ports ≡ lbports = cc in
          let single =
            (duplicate-eq-none_iff svc lbports).0 (no_duplicate _ get services svc lbports free) in
          subst DistinctNames e (
            build-DistinctNames svc names svc.ports
              (subst (λ ls. Nodup (map key_of ls)) (sym e) single))
    ]
