-- ===== src/Proxy/Upstream.antt =====
-- Which upstream a connection goes to: `upstreamFor` and its counters (internal/proxy/proxy.go), and
-- the readiness check of internal/proxy/health.go.
pub mod Turns
use bulb.Base.{
  ℕ, zero, suc, ◌+◌, ◌%◌, if◌then◌else◌, Bool, true, false, not, List, [], ◌∷◌, ◌++◌, Text, codes,
  is_empty, text_discrete, length, ite, Option, none, some,
}
use bulb.Base.Dict.{lookup, put}
use bulb.Base.Result.{Result, ok, err}
use bulb.Proxy.Pairs.{Spec, spec_protocol, protocol_tcp}

-- 2 ^ 64, where the counters wrap around.
abbrev pub two_64 : ℕ
two_64 = 18446744073709551616

-- `atomicCounter.Inc`: the counter after it, and `atomic.AddUint64(&c.count, 1) - 1`.
abbrev pub inc : ℕ → ℕ × ℕ
inc count = let next = (count + 1) % two_64 in (next, (next + 18446744073709551615) % two_64)

-- An index out of range panics.
abbrev pub endpoint_at : ℕ → List Text → Option Text
endpoint_at i [] = none
endpoint_at zero (x ∷ xs) = some x
endpoint_at (suc i) (x ∷ xs) = endpoint_at i xs

abbrev pub Counters : Type 0
Counters = List (Text × ℕ)

abbrev pub count_of : Option ℕ → ℕ
count_of none = 0
count_of (some n) = n

abbrev pub counter_key : Spec → Text
counter_key spec = spec_protocol spec ++ codes ":" ++ spec.listen

-- The counters after it, and the upstream; none where the code panics.
unfoldable pub upstream_for : Spec → Counters → Counters × Option Text
upstream_for spec counters =
    if is_empty spec.endpoints
    then (counters, some spec.upstream)
    else let (next, idx) = inc (count_of (lookup text_discrete (counter_key spec) counters)) in
      (
        put text_discrete (counter_key spec) next counters,
        endpoint_at (idx % length spec.endpoints) spec.endpoints,
      )

unfoldable pub readiness_upstream : Spec → Text
readiness_upstream spec = elim spec.endpoints [ [] ↦ spec.upstream | first ∷ rest ↦ first ]

-- `readyz`: the answer, `dial` telling whether a TCP connection to an upstream comes up. The status
-- is 200, or 503 with a message.
unfoldable pub readyz : (Text → Result (Unit {0})) → List Spec → ℕ × Text
unfolding readiness_upstream spec_protocol text_discrete
readyz dial [] = (200, codes "ready")
readyz dial (spec ∷ specs) =
    if not (ite (text_discrete (spec_protocol spec) protocol_tcp) true false)
    then readyz dial specs
    else elim (dial (readiness_upstream spec)) [
      | err e ↦ (
        503,
        codes "tcp upstream "
            ++ readiness_upstream spec
            ++ codes " for listener "
            ++ spec.listen
            ++ codes " is not ready: "
            ++ e,
      )
      | ok _ ↦ readyz dial specs
    ]
