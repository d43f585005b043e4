-- ===== src/Proxy/Upstream/Turns.antt =====
-- The endpoints take turns.
use native.Mathlib.Nat.{suc-mod, zero-mod, mod-lt, mod-eq_of_lt, mod_self, mod-mod}
use bulb.Base.{
  ℕ, zero, suc, ◌+◌, ◌%◌, ◌≤◌, ◌<◌, ◌≡◌, refl, sym, ap, ap₂, ◌∙◌, false, List, [], ◌∷◌, ◌++◌, map,
  Text, is_empty, text_discrete, length, length-append, append-nil, append_assoc, arith, Option,
  some, if_pos,
}
use bulb.Base.Dict.{lookup, lookup-put}
use bulb.Proxy.Pairs.{Spec}
use bulb.Proxy.Upstream.{endpoint_at, Counters, count_of, counter_key, upstream_for, two_64}

-- A number of calls, one after the other: what each returns.
unfoldable pub upstreams_for : Spec → ℕ → Counters → List (Option Text)
unfolding upstream_for
upstreams_for spec zero counters = []
upstreams_for spec (suc n) counters =
    let (after, upstream) = upstream_for spec counters in upstream ∷ upstreams_for spec n after

spin : List Text → ℕ → ℕ → List (Option Text)
spin xs zero r = []
spin xs (suc k) r = endpoint_at r xs ∷ spin xs k (suc r % length xs)

abbrev current : Spec → Counters → ℕ
current spec counters = count_of (lookup text_discrete (counter_key spec) counters)

-- A call takes the endpoint of the counter, and the counter goes up.
upstream_for_lem :
    (spec : Spec) (counters : Counters)
    → is_empty spec.endpoints ≡ false
    → current spec counters < two_64
    → ((upstream_for spec counters).1
        ≡ endpoint_at (current spec counters % length spec.endpoints) spec.endpoints)
      × (current spec (upstream_for spec counters).0 ≡ (current spec counters + 1) % two_64)
unfolding upstream_for
upstream_for_lem spec counters full room =
    let taken : ((current spec counters + 1) % two_64 + 18446744073709551615) % two_64
        ≡ current spec counters =
      omega arith in
    (
      rw (full, upstream_for, taken) refl,
      rw
          (
            full,
            upstream_for,
            lookup-put text_discrete (counter_key spec) (counter_key spec)
                ((current spec counters + 1) % two_64) counters,
          )
          (ap count_of (if_pos (text_discrete (counter_key spec) (counter_key spec)) refl _ _)),
    )

upstreams_for-eq-spin :
    (spec : Spec) (k : ℕ) (counters : Counters)
    → is_empty spec.endpoints ≡ false
    → current spec counters + k ≤ two_64
    → upstreams_for spec k counters
      ≡ spin spec.endpoints k (current spec counters % length spec.endpoints)
unfolding upstreams_for spin
upstreams_for-eq-spin spec zero counters full room = refl
upstreams_for-eq-spin spec (suc zero) counters full room =
    let (took, next) = upstream_for_lem spec counters full (omega (arith, room)) in
    ap (λ u. u ∷ []) took
upstreams_for-eq-spin spec (suc (suc k)) counters full room =
    let (took, next) = upstream_for_lem spec counters full (omega (arith, room)) in
    let c = current spec counters in
    let n = length spec.endpoints in
    let counted : current spec (upstream_for spec counters).0 ≡ suc c =
      next ∙ omega (arith, room) in
    let rest =
      upstreams_for-eq-spin spec (suc k) (upstream_for spec counters).0 full
        (omega (arith, room, counted)) in
    ap₂ (λ u us. u ∷ us) took
      (rest
        ∙ ap (λ (r : ℕ). spin spec.endpoints (suc k) r)
            (ap (λ (v : ℕ). v % n) counted ∙ suc-mod c n))

endpoint_at-append :
    (ys : List Text) (z : Text) (zs : List Text) → endpoint_at (length ys) (ys ++ z ∷ zs) ≡ some z
endpoint_at-append [] z zs = refl
endpoint_at-append (y ∷ ys) z zs = endpoint_at-append ys z zs

-- From the index behind `ys`, the endpoints `zs` that follow are taken in their order.
spin-run :
    (zs ys rest : List Text) (m : ℕ) (xs : List Text)
    → xs ≡ ys ++ (zs ++ rest)
    → spin xs (length zs + m) (length ys % length xs)
      ≡ map some zs ++ spin xs m ((length ys + length zs) % length xs)
unfolding spin
spin-run [] ys rest m xs e =
    ap₂ (λ (k : ℕ) (i : ℕ). spin xs k (i % length xs)) (omega arith) (omega arith)
spin-run (z ∷ zs) ys rest m xs e =
    let n = length xs in
    let long : n ≡ length ys + suc (length (zs ++ rest)) =
      ap length e ∙ length-append ys (z ∷ (zs ++ rest)) in
    let here : length ys % n ≡ length ys = mod-eq_of_lt (omega (arith, long)) in
    let shifted = e ∙ sym (append_assoc ys (z ∷ []) (zs ++ rest)) in
    let further = spin-run zs (ys ++ z ∷ []) rest m xs shifted in
    let moved : length (ys ++ z ∷ []) ≡ suc (length ys) = length-append ys (z ∷ []) ∙ omega arith in
    let joined : length (ys ++ z ∷ []) + length zs ≡ length ys + suc (length zs) =
      omega (arith, moved) in
    let at_here =
      ap (λ (i : ℕ). endpoint_at i xs) here
      ∙ ap (λ (us : List Text). endpoint_at (length ys) us) e
      ∙ endpoint_at-append ys z (zs ++ rest) in
    let at_next =
      ap (λ (i : ℕ). spin xs (length zs + m) i)
        (sym (suc-mod (length ys) n) ∙ ap (λ (j : ℕ). j % n) (sym moved))
      ∙ further
      ∙ ap (λ (j : ℕ). map some zs ++ spin xs m (j % n)) joined in
    let counted : suc (length zs) + m ≡ suc (length zs + m) = omega arith in
    ap (λ (k : ℕ). spin xs k (length ys % n)) counted
    ∙ ap₂ (λ (u : Option Text) (us : List (Option Text)). u ∷ us) at_here at_next

-- A list in two parts, the first of a given length.
abbrev TwoParts : ℕ → List Text → Type 0
TwoParts r xs = (ys : List Text) × (zs : List Text) × (xs ≡ ys ++ zs) × (length ys ≡ r)

cut_list : (r : ℕ) (xs : List Text) → r ≤ length xs → TwoParts r xs
cut_list zero xs h = ([], xs, refl, refl)
cut_list (suc r) [] h = absurd (omega (arith, h))
cut_list (suc r) (x ∷ xs) h =
    let (ys, zs, e, same) = cut_list r xs (omega (arith, h)) in
    (x ∷ ys, zs, ap (λ us. x ∷ us) e, ap suc same)

spin-whole :
    (ys zs : List Text) (xs : List Text)
    → xs ≡ ys ++ zs
    → spin xs (length xs) (length ys % length xs) ≡ map some zs ++ map some ys
unfolding spin
spin-whole ys zs xs e =
    let n = length xs in
    let long : n ≡ length ys + length zs = ap length e ∙ length-append ys zs in
    let behind = spin-run zs ys [] (length ys) xs (e ∙ ap (λ us. ys ++ us) (sym (append-nil zs))) in
    let front = spin-run ys [] zs 0 xs e in
    ap (λ (k : ℕ). spin xs k (length ys % n)) (omega (arith, long))
    ∙ behind
    ∙ ap (λ us. map some zs ++ us)
        (ap₂ (λ (k : ℕ) (i : ℕ). spin xs k i) (omega arith)
            (ap (λ (j : ℕ). j % n) (sym long) ∙ mod_self n ∙ sym (zero-mod n))
          ∙ front
          ∙ append-nil (map some ys))

not_empty : (xs : List Text) → is_empty xs ≡ false → 0 < length xs
not_empty [] h = cc
not_empty (x ∷ xs) h = omega arith

-- As many calls in a row as there are endpoints take each endpoint once, in turn: those from the
-- counter's place on, then those before it. The counter must not wrap around meanwhile.
pub upstreams_for-turns :
    (spec : Spec) (counters : Counters)
    → is_empty spec.endpoints ≡ false
    → current spec counters + length spec.endpoints ≤ two_64
    → (ys : List Text) × (zs : List Text) × (spec.endpoints ≡ ys ++ zs)
      × (length ys ≡ current spec counters % length spec.endpoints)
      × (upstreams_for spec (length spec.endpoints) counters ≡ map some zs ++ map some ys)
upstreams_for-turns spec counters full room =
    let xs = spec.endpoints in
    let r = current spec counters % length xs in
    let (ys, zs, e, same) =
      cut_list r xs (omega (arith, mod-lt (current spec counters) (not_empty xs full))) in
    (
      ys,
      zs,
      e,
      same,
      upstreams_for-eq-spin spec (length xs) counters full room
          ∙ ap (λ (i : ℕ). spin xs (length xs) i)
              (sym (mod-mod (current spec counters) (length xs))
                ∙ ap (λ (j : ℕ). j % length xs) (sym same))
          ∙ spin-whole ys zs xs e,
    )
