-- ===== src/Controller/Samples.antt =====
-- An API server for the tests: a list of objects, which accepts every call.
use bulb.Base.{
  ◌≡◌, ◌≢◌, refl, sym, ◌∙◌, Bool, true, false, ◌&&◌, List, [], ◌∷◌, Text, text_discrete, arith, ite,
  keep, if_pos, if_neg, Option, none, some, ◌⊎◌, inl, inr, subst,
}
use bulb.Base.Dict.{lookup}
use bulb.Base.Result.{ok, Found, found, not_found}
use bulb.Api.{Labels}
use bulb.Controller.Service.{text_eq}
use bulb.Controller.Cluster.{ObjectClient, IsObjectClient}

abbrev carries : Labels → Labels → Bool
carries [] l = true
carries ((k, v) ∷ want) l =
    elim (lookup text_discrete k l) [ none ↦ false | some w ↦ text_eq w v ] && carries want l

module _ {O : Type 0} (name : O → Text) (labels : O → Labels) where
  abbrev pub find_object : Text → List O → Option O
  find_object n [] = none
  find_object n (o ∷ os) = ite (text_discrete (name o) n) (some o) (find_object n os)

  abbrev without : Text → List O → List O
  without n = keep (λ o. ite (text_discrete (name o) n) false true)

  abbrev found_or_not : Option O → Found O
  found_or_not none = not_found
  found_or_not (some o) = found o

  unfoldable pub sample_client : ObjectClient (List O) O
  sample_client = record {
    get = λ n s. found_or_not (find_object n s);
    list = λ want s. ok (keep (λ o. carries want (labels o)) s);
    create = λ o s. (o ∷ without (name o) s, ok tt);
    update = λ o s. (o ∷ without (name o) s, ok tt);
    delete = λ o s. (without (name o) s, found tt);
  }

  find-named : (n : Text) (s : List O) (o : O) → find_object n s ≡ some o → name o ≡ n
  find-named n [] o h = cc
  find-named n (x ∷ s) o h = ground (arith, find-named n s o)

  find-without_other :
      (m n : Text) (s : List O) → n ≢ m → find_object n (without m s) ≡ find_object n s
  find-without_other m n [] ne = refl
  find-without_other m n (x ∷ s) ne = ground (arith, find-without_other m n s ne)

  find-without : (n : Text) (s : List O) → find_object n (without n s) ≡ none
  find-without n [] = refl
  find-without n (x ∷ s) = ground (arith, find-without n s)

  find-put : (o : O) (s : List O) → find_object (name o) (o ∷ without (name o) s) ≡ some o
  find-put o s = if_pos (text_discrete (name o) (name o)) refl (some o) _

  find-put_other :
      (o : O) (s : List O) (n : Text)
      → n ≢ name o
      → find_object n (o ∷ without (name o) s) ≡ find_object n s
  find-put_other o s n ne =
      if_neg (text_discrete (name o) n) (λ e. ne (sym e)) (some o) _
      ∙ find-without_other (name o) n s ne

  pub sample_laws : IsObjectClient name sample_client (λ s n. find_object n s)
  unfolding sample_client
  sample_laws = record {
    got = λ n s o h. ground arith;
    got_none = λ n s h. ground arith;
    named = λ n s o h. find-named n s o h;
    created = λ o s h. find-put o s;
    create_other = find-put_other;
    updated = λ o s h. find-put o s;
    update_other = find-put_other;
    deleted = λ o s h. find-without (name o) s;
    delete_missing = λ o s h. find-without (name o) s;
    delete_other = λ o s n ne. find-without_other (name o) n s ne;
  }

  -- A delete takes the object of its name away and no other.
  pub find-delete :
      (o : O) (s : List O) (n : Text)
      → (find_object n (sample_client.delete o s).0 ≡ none)
        ⊎ (find_object n (sample_client.delete o s).0 ≡ find_object n s)
  unfolding sample_client
  find-delete o s n = elim (text_discrete n (name o)) [
    | yes same ↦ inl (subst (λ m. find_object n (without m s) ≡ none) same (find-without n s))
    | no other ↦ inr (find-without_other (name o) n s other)
  ]
