-- ===== src/Base/Lists.antt =====
-- Lists measured by native numbers, membership as a test, and predicates over lists.
use Prim.Native.Nat.{ℕ, suc, ◌+◌}
use mathlib.Core.Path.{◌≡◌, refl, sym, ◌∙◌}
use mathlib.Core.Logic.{ite, if_pos, if_neg, ◌↔◌}
use mathlib.Core.Logic.Or
use mathlib.Core.Bool.{Bool, true, false, ◌&&◌, ◌||◌, false≢true, Bool-set}
use mathlib.Core.List.{List, [], ◌∷◌, ◌++◌, Mem, Nodup, mem-cons, not-mem-nil, Nodup-cons}
use native.Mathlib.Omega.{arith}
use bulb.Base.Tests.{if◌then◌else◌}

module _ {ℓ} {A : Type ℓ} where
  abbrev pub length : List A → ℕ
  length [] = 0
  length (x ∷ xs) = suc (length xs)

  pub length-append : (xs ys : List A) → length (xs ++ ys) ≡ length xs + length ys
  length-append [] ys = omega arith
  length-append (x ∷ xs) ys = omega (arith, length-append xs ys)

  -- A loop that keeps the elements which pass a test.
  abbrev pub keep : (A → Bool) → List A → List A
  keep p [] = []
  keep p (x ∷ xs) = if p x then x ∷ keep p xs else keep p xs

  abbrev pub is_empty : List A → Bool
  is_empty [] = true
  is_empty (x ∷ xs) = false

module _ {ℓ} {A : Type ℓ} (d : Discrete A) where
  -- Membership in a Go map that serves as a set, filled from the list.
  abbrev pub contains : A → List A → Bool
  contains a [] = false
  contains a (x ∷ xs) = ite (d a x) true (contains a xs)

  pub contains-append :
      (a : A) (xs ys : List A) → contains a (xs ++ ys) ≡ (contains a xs || contains a ys)
  contains-append a [] ys = refl
  contains-append a (x ∷ xs) ys = ground (arith, contains-append a xs ys)

  pub contains-keep :
      (a : A) (p : A → Bool) (xs : List A) → contains a (keep p xs) ≡ (contains a xs && p a)
  contains-keep a p [] = refl
  contains-keep a p (x ∷ xs) = ground (arith, contains-keep a p xs)

module _ {ℓ κ} {A : Type ℓ} (P : A → Type κ) where
  -- A predicate that holds of every element.
  abbrev pub All : List A → Type κ
  All [] = Unit
  All (x ∷ xs) = P x × All xs

module _ {ℓ} {A : Type ℓ} (d : Discrete A) where
  pub contains-iff-mem : (a : A) (xs : List A) → (contains d a xs ≡ true) ↔ Mem a xs
  contains-iff-mem a [] = (λ e. absurd (false≢true e), λ m. absurd (not-mem-nil m))
  contains-iff-mem a (x ∷ xs) = elim (d a x) [
    | yes same ↦ rw (if_pos _ same) (λ _. mem-cons.1 (Or.inl same), λ _. refl)
    | no other ↦ rw (if_neg _ other) (
      λ e. mem-cons.1 (Or.inr ((contains-iff-mem a xs).0 e)),
      λ m. Or.elim (Bool-set _ _) (mem-cons.0 m) (λ e. absurd (other e)) (contains-iff-mem a xs).1,
    )
  ]

  pub Nodup-cons_of_contains :
      (a : A) (xs : List A) → contains d a xs ≡ false → Nodup xs → Nodup (a ∷ xs)
  Nodup-cons_of_contains a xs absent n =
      Nodup-cons.1 (λ m. false≢true (sym absent ∙ (contains-iff-mem a xs).1 m), n)

module _ {ℓ} {A : Type ℓ} where
  -- Whether some element passes a test.
  abbrev pub any : (A → Bool) → List A → Bool
  any p [] = false
  any p (x ∷ xs) = p x || any p xs

  pub any-keep : (p q : A → Bool) (xs : List A) → any p (keep q xs) ≡ any (λ x. p x && q x) xs
  any-keep p q [] = refl
  any-keep p q (x ∷ xs) = ground (arith, any-keep p q xs)

pub All-imp {ℓ κ μ} :
    {A : Type ℓ} (P : A → Type κ) (Q : A → Type μ) (xs : List A)
    → ((x : A) → P x → Q x)
    → All P xs
    → All Q xs
All-imp P Q [] f h = tt
All-imp P Q (x ∷ xs) f (p, h) = (f x p, All-imp P Q xs f h)

module _ {ℓ κ} {A : Type ℓ} (P : A → Type κ) where
  pub All-append : (xs ys : List A) → All P xs → All P ys → All P (xs ++ ys)
  All-append [] ys h k = k
  All-append (x ∷ xs) ys (p, h) k = (p, All-append xs ys h k)

  pub All-keep : (q : A → Bool) (xs : List A) → All P xs → All P (keep q xs)
  All-keep q [] h = tt
  All-keep q (x ∷ xs) (p, h) = ground (arith, All-keep q xs h)

  pub All-if : (b : Bool) (xs ys : List A) → All P xs → All P ys → All P (if b then xs else ys)
  All-if true xs ys h k = h
  All-if false xs ys h k = k
