-- ===== src/Controller/Conflicts/Duplicates.antt =====
-- When a Service declares a port twice.
use mathlib.Core.List.{Nodup, Nodup-cons, Nodup-nil}
use bulb.Base.{
  ◌≡◌, refl, sym, ◌↔◌, Bool, true, false, List, [], ◌∷◌, map, Text, text_discrete, arith, Option,
  none, some, contains, Bool-cases, inl, inr, contains-iff-mem, Nodup-cons_of_contains, any, if_pos,
  if_neg, ◌||◌,
}
use bulb.Api.{LbPort}
use bulb.Controller.Service.{Service}
use bulb.Controller.Conflicts.{
  PortConflict, port_key, duplicate_from, duplicate_service_port_conflict,
}

abbrev pub key_of : LbPort → Text
key_of l = port_key l.spec.port l.spec.protocol

abbrev is_some : Option PortConflict → Bool
is_some none = false
is_some (some c) = true

abbrev repeats : List Text → Bool
repeats [] = false
repeats (k ∷ ks) = contains text_discrete k ks || repeats ks

abbrev meets : List Text → List LbPort → Bool
meets seen = any (λ l. contains text_discrete (key_of l) seen)

meets-cons :
    (k : Text) (seen : List Text) (ls : List LbPort)
    → meets (k ∷ seen) ls ≡ (contains text_discrete k (map key_of ls) || meets seen ls)
meets-cons k seen [] = refl
meets-cons k seen (l ∷ ls) = elim (text_discrete k (key_of l)) [
  | yes e ↦ rw (if_pos _ e, if_pos (text_discrete (key_of l) k) (sym e)) (ground arith)
  | no n ↦
      rw (if_neg _ n, if_neg (text_discrete (key_of l) k) (λ e. n (sym e)))
        (ground (arith, meets-cons k seen ls))
]

duplicate_from_lem :
    (svc : Service) (seen : List Text) (ls : List LbPort)
    → is_some (duplicate_from svc seen ls) ≡ (meets seen ls || repeats (map key_of ls))
unfolding duplicate_from
duplicate_from_lem svc seen [] = refl
duplicate_from_lem svc seen (l ∷ ls) =
    ground (arith, duplicate_from_lem svc (key_of l ∷ seen) ls, meets-cons (key_of l) seen ls)

repeats-Nodup : (ks : List Text) → (repeats ks ≡ false) ↔ Nodup ks
repeats-Nodup [] = (λ e. Nodup-nil, λ n. refl)
repeats-Nodup (k ∷ ks) = (
  λ e.
      Nodup-cons_of_contains text_discrete k ks (ground arith)
        ((repeats-Nodup ks).0 (ground arith)),
  λ n.
      let absent = λ (e : contains text_discrete k ks ≡ true).
        (Nodup-cons.0 n).0 ((contains-iff-mem text_discrete k ks).0 e) in
      let rest = (repeats-Nodup ks).1 (Nodup-cons.0 n).1 in
      elim (Bool-cases (contains text_discrete k ks)) [
        | inl e ↦ absurd (absent e)
        | inr e ↦ rw (e, rest)
      ],
)

nothing_met : (ls : List LbPort) → meets [] ls ≡ false
nothing_met [] = refl
nothing_met (l ∷ ls) = nothing_met ls

-- No duplicate is reported exactly when the keys of the ports, number and protocol, are distinct.
pub duplicate-eq-none_iff :
    (svc : Service) (desired : List LbPort)
    → (duplicate_service_port_conflict svc desired ≡ none) ↔ Nodup (map key_of desired)
unfolding duplicate_service_port_conflict
duplicate-eq-none_iff svc desired =
    let (to, from) = repeats-Nodup (map key_of desired) in
    (
      λ e. to (ground (arith, duplicate_from_lem svc [] desired, nothing_met desired)),
      λ n.
          let none_twice = from n in
          ground (arith, duplicate_from_lem svc [] desired, nothing_met desired),
    )
