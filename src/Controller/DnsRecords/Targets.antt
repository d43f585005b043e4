-- ===== src/Controller/DnsRecords/Targets.antt =====
-- Which addresses the DNS records of a Service point to.
use bulb.Base.{
  ◌≡◌, refl, ap₂, ◌∙◌, Bool, true, false, not, ◌&&◌, ◌||◌, List, [], ◌∷◌, ◌++◌, Text, is_empty,
  text_discrete, text_less, contains, any, ite, Option, none, some, arith, Bool-cases, inl, inr,
}
use bulb.Base.Sort.{sort, contains-sort_self}
use bulb.Api.{DnsRecord, get_label}
use bulb.Controller.Service.{Service, annotation_dns_name, dns_record_name, dns_record_name_aaaa}
use bulb.Controller.DnsRecords.{
  split_by_family, build_dns_record_always, build_dns_record, at_least_one, build_dns_records,
  dns_type_a, dns_type_aaaa,
}

-- The address is of the family, `true` standing for IPv4.
abbrev pub is_family : Bool → Option Bool → Bool
is_family want none = false
is_family true (some four) = four
is_family false (some four) = not four

-- Some record of the type has the address as a target.
abbrev pub targeted : Text → Text → List DnsRecord → Bool
targeted rec_type ip = any (λ r.
    ite (text_discrete r.spec.record_type rec_type) (contains text_discrete ip r.spec.targets)
      false)

module _ (parse_ip : Text → Option Bool) where
  contains-v4 :
      (ip : Text) (ips : List Text)
      → contains text_discrete ip (split_by_family parse_ip ips).0
        ≡ (contains text_discrete ip ips && is_family true (parse_ip ip))
  unfolding split_by_family
  contains-v4 ip [] = refl
  contains-v4 ip (raw ∷ ips) = ground (arith, contains-v4 ip ips)

  contains-v6 :
      (ip : Text) (ips : List Text)
      → contains text_discrete ip (split_by_family parse_ip ips).1
        ≡ (contains text_discrete ip ips && is_family false (parse_ip ip))
  unfolding split_by_family
  contains-v6 ip [] = refl
  contains-v6 ip (raw ∷ ips) = ground (arith, contains-v6 ip ips)

  targeted-append :
      (t ip : Text) (xs ys : List DnsRecord)
      → targeted t ip (xs ++ ys) ≡ (targeted t ip xs || targeted t ip ys)
  targeted-append t ip [] ys = refl
  targeted-append t ip (x ∷ xs) ys = ground (arith, targeted-append t ip xs ys)

  targeted-build :
      (svc : Service) (fqdn t u name ip : Text) (targets : List Text)
      → targeted t ip (build_dns_record svc fqdn u name targets)
        ≡ ite (text_discrete u t) (contains text_discrete ip targets) false
  unfolding build_dns_record build_dns_record_always
  targeted-build svc fqdn t u name ip [] = ground arith
  targeted-build svc fqdn t u name ip (x ∷ xs) =
      ground (arith, contains-sort_self text_less text_discrete ip (x ∷ xs))

  targeted-nothing :
      (svc : Service) (fqdn t u name ip : Text)
      → targeted t ip (build_dns_record_always svc fqdn u name [] ∷ []) ≡ false
  unfolding build_dns_record_always sort
  targeted-nothing svc fqdn t u name ip = ground arith

  targeted-at_least_one :
      (svc : Service) (fqdn t ip : Text) (out : List DnsRecord)
      → targeted t ip (at_least_one svc fqdn out) ≡ targeted t ip out
  unfolding at_least_one
  targeted-at_least_one svc fqdn t ip [] =
      targeted-nothing svc fqdn t dns_type_a (dns_record_name svc) ip
  targeted-at_least_one svc fqdn t ip (x ∷ out) = refl

  -- The targets of one type, from those of the two families.
  targeted-records :
      (svc : Service) (fqdn t ip : Text) (v4 v6 : List Text)
      → targeted t ip (
          at_least_one svc fqdn (
            build_dns_record svc fqdn dns_type_a (dns_record_name svc) v4
            ++ build_dns_record svc fqdn dns_type_aaaa (dns_record_name_aaaa svc) v6))
        ≡ (ite (text_discrete dns_type_a t) (contains text_discrete ip v4) false
            || ite (text_discrete dns_type_aaaa t) (contains text_discrete ip v6) false)
  targeted-records svc fqdn t ip v4 v6 =
      targeted-at_least_one svc fqdn t ip _
      ∙ targeted-append t ip (build_dns_record svc fqdn dns_type_a (dns_record_name svc) v4) _
      ∙ ap₂ (λ a b. a || b) (targeted-build svc fqdn t dns_type_a (dns_record_name svc) ip v4)
          (targeted-build svc fqdn t dns_type_aaaa (dns_record_name_aaaa svc) ip v6)

  pick_v4 :
      (a b : Bool)
      → (ite (text_discrete dns_type_a dns_type_a) a false
          || ite (text_discrete dns_type_aaaa dns_type_a) b false)
        ≡ a
  unfolding text_discrete
  pick_v4 a b = ground arith

  pick_v6 :
      (a b : Bool)
      → (ite (text_discrete dns_type_a dns_type_aaaa) a false
          || ite (text_discrete dns_type_aaaa dns_type_aaaa) b false)
        ≡ b
  unfolding text_discrete
  pick_v6 a b = ground arith

  -- With a DNS name, the A records point to exactly the IPv4 addresses given, and the AAAA records
  -- to exactly the IPv6 ones; without, to none.
  pub build_dns_records-targeted :
      (svc : Service) (public_ips : List Text) (ip : Text)
      → let named = not (is_empty (get_label annotation_dns_name svc.annotations)) in
        let recs = build_dns_records parse_ip svc public_ips in
        (targeted dns_type_a ip recs
          ≡ (named && (contains text_discrete ip public_ips && is_family true (parse_ip ip))))
        × (targeted dns_type_aaaa ip recs
            ≡ (named && (contains text_discrete ip public_ips && is_family false (parse_ip ip))))
  unfolding build_dns_records
  build_dns_records-targeted svc public_ips ip =
      let fqdn = get_label annotation_dns_name svc.annotations in
      let (v4, v6) = split_by_family parse_ip public_ips in
      elim (Bool-cases (is_empty fqdn)) [
        | inl unnamed ↦ rw (unnamed, build_dns_records) (refl, refl)
        | inr named ↦
            rw (named, build_dns_records)
              (
                targeted-records svc fqdn dns_type_a ip v4 v6
                    ∙ pick_v4 (contains text_discrete ip v4) (contains text_discrete ip v6)
                    ∙ contains-v4 ip public_ips,
                targeted-records svc fqdn dns_type_aaaa ip v4 v6
                    ∙ pick_v6 (contains text_discrete ip v4) (contains text_discrete ip v6)
                    ∙ contains-v6 ip public_ips,
              )
      ]
