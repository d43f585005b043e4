-- ===== src/Proxy/Pairs/Format.antt =====
-- The flags' texts and what is parsed from them.
use bulb.Base.{
  ◌≡◌, refl, sym, false, List, [], ◌∷◌, ◌++◌, Text, is_empty, trim_space, cut_at, split_host_port,
  cut_at-append, cut_at-eq_some, split_on-join, IsFree, join, All, All-imp, Option-cases, arith,
  inl, inr, subst,
}
use bulb.Base.Result.{ok, Result-cases}
use bulb.Proxy.Pairs.{
  Spec, parse_pair, checked_pair, filter_endpoints, parse_endpoint_pair, checked_endpoints,
}

-- An address that `net.SplitHostPort` takes.
abbrev pub IsAddress : Text → Type 0
IsAddress s = (parts : Text × Text) × (split_host_port s ≡ ok parts)

address-is_empty : (s : Text) → IsAddress s → is_empty s ≡ false
unfolding split_host_port
address-is_empty [] (parts, h) = cc
address-is_empty (c ∷ s) h = refl

abbrev pub plain_spec : Text → Text → Spec
plain_spec listen upstream = record {
  listen = listen;
  upstream = upstream;
  protocol = [];
  proxy_protocol = [];
  endpoints = [];
}

-- A pair of two addresses, the first without `=`, parses to its parts.
pub parse_pair-format :
    (listen upstream : Text)
    → IsAddress listen
    → IsAddress upstream
    → IsFree 61 listen
    → parse_pair (listen ++ 61 ∷ upstream) ≡ ok (plain_spec listen upstream)
unfolding parse_pair checked_pair
parse_pair-format listen upstream (p, h) (q, k) free =
    rw
      (
        cut_at-append 61 listen upstream free,
        parse_pair,
        address-is_empty listen (p, h),
        address-is_empty upstream (q, k),
        h,
        k,
      )
      refl

checked_pair-ok :
    (s a b : Text) (spec : Spec)
    → checked_pair s (a, b) ≡ ok spec
    → (spec ≡ plain_spec a b) × IsAddress a × IsAddress b
unfolding checked_pair
checked_pair-ok s a b spec h = elim (Result-cases (split_host_port a)) [
  | inr (e, failed) ↦ absurd (ground arith)
  | inl (p, split_a) ↦ elim (Result-cases (split_host_port b)) [
    | inr (e, failed) ↦ absurd (ground arith)
    | inl (q, split_b) ↦ (ground arith, (p, split_a), (q, split_b))
  ]
]

-- What parses is a pair of two addresses, and the first has no `=`: the round trip in the other
-- direction.
pub parse_pair-ok :
    (s : Text) (spec : Spec)
    → parse_pair s ≡ ok spec
    → (s ≡ spec.listen ++ 61 ∷ spec.upstream)
      × IsFree 61 spec.listen
      × IsAddress spec.listen
      × IsAddress spec.upstream
unfolding parse_pair checked_pair
parse_pair-ok s spec parsed = elim (Option-cases (cut_at 61 s)) [
  | inl absent ↦ absurd (ground arith)
  | inr ((a, b), found) ↦
      let (same, first, second) = checked_pair-ok s a b spec (rw (found, parse_pair) at parsed) in
      let (joined, free) = cut_at-eq_some 61 s a b found in
      subst
        (λ (x : Spec).
          (s ≡ x.listen ++ 61 ∷ x.upstream)
          × IsFree 61 x.listen
          × IsAddress x.listen
          × IsAddress x.upstream)
        (sym same) (joined, free, first, second)
]

-- An endpoint as it is written: an address with no comma and no space around it.
abbrev pub IsEndpoint : Text → Type 0
IsEndpoint s = IsAddress s × IsFree 44 s × (trim_space s ≡ s)

filter_endpoints-format : (ss : List Text) → All IsEndpoint ss → filter_endpoints ss ≡ ok ss
unfolding filter_endpoints
filter_endpoints-format [] h = refl
filter_endpoints-format (s ∷ ss) (((p, h), free, trimmed), hs) =
    rw
      (
        trimmed,
        filter_endpoints,
        address-is_empty s (p, h),
        h,
        filter_endpoints-format ss hs,
        trimmed,
      )
      refl

join-is_empty :
    (s : Text) (ss : List Text) → is_empty s ≡ false → is_empty (join (44 ∷ []) (s ∷ ss)) ≡ false
unfolding join
join-is_empty s [] h = h
join-is_empty [] (t ∷ ss) h = cc
join-is_empty (c ∷ s) (t ∷ ss) h = refl

-- The argument that names a listen address and its endpoints parses to them.
pub parse_endpoint_pair-format :
    (listen s : Text) (ss : List Text)
    → IsAddress listen
    → IsFree 61 listen
    → All IsEndpoint (s ∷ ss)
    → parse_endpoint_pair (listen ++ 61 ∷ join (44 ∷ []) (s ∷ ss)) ≡ ok (listen, s ∷ ss)
unfolding parse_endpoint_pair checked_endpoints
parse_endpoint_pair-format listen s ss (p, h) free (e, es) =
    let apart = All-imp _ _ ss (λ _ x. x.1) es in
    rw
      (
        cut_at-append 61 listen (join (44 ∷ []) (s ∷ ss)) free,
        parse_endpoint_pair,
        address-is_empty listen (p, h),
        join-is_empty s ss (address-is_empty s e.0),
        h,
        split_on-join 44 s ss e.1 apart,
        filter_endpoints-format (s ∷ ss) (e, es),
      )
      refl
