-- ===== src/Base/Sort.antt =====
-- `sort.Strings` and `sort.Slice` as insertion sort over a comparison. `sort.Slice` is not stable;
-- where the program calls it, no two elements compare as equal or equal ones are the same.
use mathlib.Core.Path.{◌≡◌, refl, ap, ap₂, sym, ◌∙◌, subst}
use mathlib.Core.HLevel.{hedberg}
use mathlib.Core.Logic.{∥∥₁_elim}
use mathlib.Core.Logic.{inl, inr, ◌↔◌}
use mathlib.Core.Bool.{Bool, true, false}
use mathlib.Core.List.{List, [], ◌∷◌, map, Perm, Permᴰ, List-discrete}
use mathlib.Core.List.Perm
use native.Mathlib.Omega.{arith}
use bulb.Base.Tests.{if◌then◌else◌, Bool-cases}
use bulb.Base.Lists.{contains, length, All, any}

module _ {ℓ} {A : Type ℓ} (less : A → A → Bool) where
  unfoldable pub insert : A → List A → List A
  insert x [] = x ∷ []
  insert x (y ∷ ys) = if less y x then y ∷ insert x ys else x ∷ y ∷ ys

  unfoldable pub sort : List A → List A
  unfolding insert
  sort [] = []
  sort (x ∷ xs) = insert x (sort xs)

  -- No element compares as less than one before it.
  abbrev pub IsSorted : List A → Type 0
  IsSorted [] = Unit
  IsSorted (x ∷ xs) = All (λ y. less y x ≡ false) xs × IsSorted xs

  insert-perm : (x : A) (xs : List A) → Perm (insert x xs) (x ∷ xs)
  unfolding insert
  insert-perm x [] = Perm.rfl
  insert-perm x (y ∷ ys) =
      let later = Perm.trans (Perm.cons y (insert-perm x ys)) (Perm.swap x y ys) in
      ground (arith, later, Perm.refl (x ∷ y ∷ ys))

  pub sort-perm : (xs : List A) → Perm (sort xs) xs
  unfolding sort
  sort-perm [] = Perm.rfl
  sort-perm (x ∷ xs) = Perm.trans (insert-perm x (sort xs)) (Perm.cons x (sort-perm xs))

  length-insert : (x : A) (xs : List A) → length (insert x xs) ≡ length (x ∷ xs)
  unfolding insert
  length-insert x [] = refl
  length-insert x (y ∷ ys) = ground (arith, length-insert x ys)

  pub length-sort : (xs : List A) → length (sort xs) ≡ length xs
  unfolding sort
  length-sort [] = refl
  length-sort (x ∷ xs) =
      length-insert x (sort xs) ∙ ap (λ n. Prim.Native.Nat.suc n) (length-sort xs)

  module _ {κ} (P : A → Type κ) where
    insert-All : (x : A) (xs : List A) → P x → All P xs → All P (insert x xs)
    unfolding insert
    insert-All x [] p h = (p, tt)
    insert-All x (y ∷ ys) p (q, h) = ground (arith, insert-All x ys p h)

    pub sort-All : (xs : List A) → All P xs → All P (sort xs)
    unfolding sort
    sort-All [] h = tt
    sort-All (x ∷ xs) (p, h) = insert-All x (sort xs) p (sort-All xs h)

  -- A test on the elements is met in the sorted list by as many.
  module _ {κ} {B : Type κ} (d : Discrete B) (f : A → B) where
    contains-insert :
        (b : B) (x : A) (xs : List A)
        → contains d b (map f (insert x xs)) ≡ contains d b (f x ∷ map f xs)
    unfolding insert
    contains-insert b x [] = refl
    contains-insert b x (y ∷ ys) = ground (arith, contains-insert b x ys)

    pub contains-sort :
        (b : B) (xs : List A) → contains d b (map f (sort xs)) ≡ contains d b (map f xs)
    unfolding sort
    contains-sort b [] = refl
    contains-sort b (x ∷ xs) = ground (arith, contains-insert b x (sort xs), contains-sort b xs)

  module _ (d : Discrete A) where
    contains-insert_self :
        (a x : A) (xs : List A) → contains d a (insert x xs) ≡ contains d a (x ∷ xs)
    unfolding insert
    contains-insert_self a x [] = refl
    contains-insert_self a x (y ∷ ys) = ground (arith, contains-insert_self a x ys)

    pub contains-sort_self : (a : A) (xs : List A) → contains d a (sort xs) ≡ contains d a xs
    unfolding sort
    contains-sort_self a [] = refl
    contains-sort_self a (x ∷ xs) =
        ground (arith, contains-insert_self a x (sort xs), contains-sort_self a xs)

  module _ (p : A → Bool) where
    any-insert : (x : A) (xs : List A) → any p (insert x xs) ≡ any p (x ∷ xs)
    unfolding insert
    any-insert x [] = refl
    any-insert x (y ∷ ys) = ground (arith, any-insert x ys)

    pub any-sort : (xs : List A) → any p (sort xs) ≡ any p xs
    unfolding sort
    any-sort [] = refl
    any-sort (x ∷ xs) = ground (arith, any-insert x (sort xs), any-sort xs)

-- What a strict total order's test satisfies.
pub record IsOrder {ℓ} {A : Type ℓ} (less : A → A → Bool) : Type ℓ where
  pub trans : (a b c : A) → less a b ≡ true → less b c ≡ true → less a c ≡ true
  pub irrefl : (a : A) → less a a ≡ false
  pub connex : (a b : A) → less a b ≡ false → less b a ≡ false → a ≡ b

-- What sorting needs of a comparison: its negation is transitive, and it never holds both ways.
pub record IsWeakOrder {ℓ} {A : Type ℓ} (less : A → A → Bool) : Type ℓ where
  pub asym : (a b : A) → less a b ≡ true → less b a ≡ false
  pub not_less_trans : (a b c : A) → less b a ≡ false → less c b ≡ false → less c a ≡ false

module _ {ℓ} {A : Type ℓ} {less : A → A → Bool} (w : IsWeakOrder less) where
  All-mono :
      (a b : A) (xs : List A)
      → less b a ≡ false
      → All (λ y. less y b ≡ false) xs
      → All (λ y. less y a ≡ false) xs
  All-mono a b [] h k = tt
  All-mono a b (x ∷ xs) h (p, k) = (w.not_less_trans a b x h p, All-mono a b xs h k)

  insert-IsSorted : (x : A) (xs : List A) → IsSorted less xs → IsSorted less (insert less x xs)
  unfolding insert
  insert-IsSorted x [] h = (tt, tt)
  insert-IsSorted x (y ∷ ys) (p, h) = elim (Bool-cases (less y x)) [
    | inl lt ↦ rw lt (insert-All less _ x ys (w.asym y x lt) p, insert-IsSorted x ys h)
    | inr ge ↦ rw ge ((ge, All-mono x y ys ge p), (p, h))
  ]

  pub sort-IsSorted : (xs : List A) → IsSorted less (sort less xs)
  unfolding sort
  sort-IsSorted [] = tt
  sort-IsSorted (x ∷ xs) = insert-IsSorted x (sort less xs) (sort-IsSorted xs)

module _ {ℓ} {A : Type ℓ} {less : A → A → Bool} (o : IsOrder less) where
  asym : (a b : A) → less a b ≡ true → less b a ≡ false
  asym a b h = ground (arith, o.trans a b a h, o.irrefl a)

  not_less_trans : (a b c : A) → less b a ≡ false → less c b ≡ false → less c a ≡ false
  not_less_trans a b c h k = elim (Bool-cases (less a b)) [
    | inl lt ↦ ground (arith, o.trans c a b)
    | inr ge ↦ let e = o.connex a b ge h in subst (λ x. less c x ≡ false) (sym e) k
  ]

  pub IsOrder-IsWeakOrder : IsWeakOrder less
  IsOrder-IsWeakOrder = record { asym = asym; not_less_trans = not_less_trans }

  insert_comm :
      (x y : A) (xs : List A) → insert less x (insert less y xs) ≡ insert less y (insert less x xs)
  unfolding insert
  insert_comm x y [] = ground (arith, asym x y, o.connex x y)
  insert_comm x y (z ∷ zs) = ground (
    arith,
    insert_comm x y zs,
    asym x y,
    asym y x,
    o.connex x y,
    o.trans x y z,
    o.trans y x z,
    not_less_trans x y z,
    not_less_trans y x z,
    o.irrefl x,
    asym x z,
    asym y z,
    o.trans z x y,
    o.trans z y x,
  )

  sort-eq_of_permᴰ : {xs ys : List A} → Permᴰ xs ys → sort less xs ≡ sort less ys
  unfolding sort
  sort-eq_of_permᴰ Permᴰ.nil = refl
  sort-eq_of_permᴰ (Permᴰ.cons e p) = ap₂ (insert less) e (sort-eq_of_permᴰ p)
  sort-eq_of_permᴰ (Permᴰ.swap {a} {b} {l} e f) = rw (← e, ← f) (insert_comm a b (sort less l))
  sort-eq_of_permᴰ (Permᴰ.trans p q) = sort-eq_of_permᴰ p ∙ sort-eq_of_permᴰ q

  -- Two lists sort to one list exactly when each is a rearrangement of the other.
  pub sort-eq_iff_perm : Discrete A → (xs ys : List A) → (sort less xs ≡ sort less ys) ↔ Perm xs ys
  sort-eq_iff_perm d xs ys = (
    λ e. Perm.trans (Perm.symm (sort-perm less xs)) (rw e (sort-perm less ys)),
    λ p. ∥∥₁_elim p (hedberg (List-discrete d) _ _) sort-eq_of_permᴰ,
  )
