-- ===== src/Base/Dict.antt =====
-- Go maps as association lists with distinct keys; a new key goes to the end. The program reads
-- its maps by key only, or sorts what it collects from them.
use mathlib.Core.Path.{◌≡◌, refl, sym, ◌∙◌}
use mathlib.Core.Logic.{ite, if_pos, if_neg}
use mathlib.Core.Bool.{true, false}
use mathlib.Core.Option.{Option, none, some}
use mathlib.Core.List.{List, [], ◌∷◌, map, Nodup, Nodup-nil}
use native.Mathlib.Omega.{arith}
use bulb.Base.Lists.{contains, Nodup-cons_of_contains}

abbrev pub keys {ℓ} : {K V : Type ℓ} → List (K × V) → List K
keys m = map (λ e. e.0) m

abbrev pub values {ℓ} : {K V : Type ℓ} → List (K × V) → List V
values m = map (λ e. e.1) m

module _ {ℓ} {K V : Type ℓ} (d : Discrete K) where
  abbrev pub lookup : K → List (K × V) → Option V
  lookup k [] = none
  lookup k ((j, v) ∷ m) = ite (d k j) (some v) (lookup k m)

  unfoldable pub put : K → V → List (K × V) → List (K × V)
  put k v [] = (k, v) ∷ []
  put k v ((j, w) ∷ m) = ite (d k j) ((k, v) ∷ m) ((j, w) ∷ put k v m)

  pub lookup-put :
      (k j : K) (v : V) (m : List (K × V))
      → lookup j (put k v m) ≡ ite (d j k) (some v) (lookup j m)
  unfolding put
  lookup-put k j v [] = refl
  lookup-put k j v ((i, w) ∷ m) = ground (arith, lookup-put k j v m)

  pub contains-keys-put :
      (k j : K) (v : V) (m : List (K × V))
      → contains d j (keys (put k v m)) ≡ ite (d j k) true (contains d j (keys m))
  unfolding put
  contains-keys-put k j v [] = refl
  contains-keys-put k j v ((i, w) ∷ m) = elim (d k i) [
    | yes same ↦ rw (if_pos _ same) (ground arith)
    | no other ↦ rw (if_neg _ other) (ground (arith, contains-keys-put k j v m))
  ]

  -- The keys are distinct.
  abbrev pub Distinct : List (K × V) → Type 0
  Distinct [] = Unit
  Distinct ((k, v) ∷ m) = (contains d k (keys m) ≡ false) × Distinct m

  pub put-Distinct : (k : K) (v : V) (m : List (K × V)) → Distinct m → Distinct (put k v m)
  unfolding put
  put-Distinct k v [] h = (refl, tt)
  put-Distinct k v ((j, w) ∷ m) (p, h) = elim (d k j) [
    | yes same ↦ rw (if_pos _ same) (rw same p, h)
    | no other ↦ rw (if_neg _ other) (
      contains-keys-put k j v m ∙ if_neg (d j k) (λ e. other (sym e)) true _ ∙ p,
      put-Distinct k v m h,
    )
  ]

  pub Distinct-Nodup : (m : List (K × V)) → Distinct m → Nodup (keys m)
  Distinct-Nodup [] h = Nodup-nil
  Distinct-Nodup ((k, v) ∷ m) (p, h) = Nodup-cons_of_contains d k (keys m) p (Distinct-Nodup m h)
