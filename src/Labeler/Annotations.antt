-- ===== src/Labeler/Annotations.antt =====
-- What the labeler leaves in the Node's annotations.
use mathlib.Core.Bool.{false≢true}
use bulb.Base.{
  ◌≡◌, ◌≢◌, refl, sym, ap, ◌∙◌, if◌then◌else◌, Bool, true, false, Text, is_empty, text_discrete,
  ite, if_neg, Option, some, arith, Bool-cases, inl, inr, subst,
}
use bulb.Base.Dict.{put, lookup-put}
use bulb.Base.Result.{ok, Result-cases}
use bulb.Api.{Labels, get_label}
use bulb.Labeler.{
  annotation_ipv4, annotation_ipv6, NodeClient, differs, set_if, new_annotations, annotate_node,
}

get_label-put :
    (j k v : Text) (m : Labels)
    → get_label j (put text_discrete k v m) ≡ ite (text_discrete j k) v (get_label j m)
unfolding get_label
get_label-put j k v m = ground (arith, lookup-put text_discrete k j v m)

-- The value of an annotation after one of the two tests: the given one, unless it is empty.
get_label-set_if :
    (k v : Text) (m : Labels)
    → get_label k (set_if (differs k v m) k v m) ≡ (if is_empty v then get_label k m else v)
get_label-set_if k v m = elim (text_discrete (get_label k m) v) [
  | yes e ↦ ground (arith, e)
  | no ne ↦ ground (arith, get_label-put k k v m)
]

get_label-set_if_other :
    (b : Bool) (j k v : Text) (m : Labels) → j ≢ k → get_label j (set_if b k v m) ≡ get_label j m
get_label-set_if_other true j k v m ne = get_label-put j k v m ∙ if_neg (text_discrete j k) ne v _
get_label-set_if_other false j k v m ne = refl

keys_differ : annotation_ipv4 ≢ annotation_ipv6
unfolding text_discrete
keys_differ e = false≢true (sym (ap (λ t. ite (text_discrete t annotation_ipv4) true false) e))

-- The annotations that are wanted: the detected addresses, the rest as it was.
pub record IsAnnotated (ipv4 ipv6 : Text) (before after : Labels) : Type 0 where
  pub has_ipv4 :
      get_label annotation_ipv4 after
      ≡ (if is_empty ipv4 then get_label annotation_ipv4 before else ipv4)
  pub has_ipv6 :
      get_label annotation_ipv6 after
      ≡ (if is_empty ipv6 then get_label annotation_ipv6 before else ipv6)
  pub others :
      (k : Text)
      → k ≢ annotation_ipv4
      → k ≢ annotation_ipv6
      → get_label k after ≡ get_label k before

new_annotations-IsAnnotated :
    (ipv4 ipv6 : Text) (ann : Labels) → IsAnnotated ipv4 ipv6 ann (new_annotations ipv4 ipv6 ann).0
unfolding new_annotations
new_annotations-IsAnnotated ipv4 ipv6 ann =
    let first = differs annotation_ipv4 ipv4 ann in
    let ann' = set_if first annotation_ipv4 ipv4 ann in
    let second = differs annotation_ipv6 ipv6 ann' in
    let kept =
      get_label-set_if_other first annotation_ipv6 annotation_ipv4 ipv4 ann
        (λ e. keys_differ (sym e)) in
    record {
      has_ipv4 =
          get_label-set_if_other second annotation_ipv4 annotation_ipv6 ipv6 ann' keys_differ
          ∙ get_label-set_if annotation_ipv4 ipv4 ann;
      has_ipv6 =
          get_label-set_if annotation_ipv6 ipv6 ann'
          ∙ ap (λ old. if is_empty ipv6 then old else ipv6) kept;
      others = λ k p q.
          get_label-set_if_other second k annotation_ipv6 ipv6 ann' q
          ∙ get_label-set_if_other first k annotation_ipv4 ipv4 ann p;
    }

-- Where neither test has found a difference, the annotations are those that are there.
unchanged_lem :
    (ipv4 ipv6 : Text) (ann : Labels)
    → (new_annotations ipv4 ipv6 ann).1 ≡ false
    → (new_annotations ipv4 ipv6 ann).0 ≡ ann
unfolding new_annotations
unchanged_lem ipv4 ipv6 ann h = ground arith

-- What the API server documents of Nodes: a read returns the annotations, an update that is
-- accepted stores them, and no other Node changes.
pub record IsNodeClient {K : Type 0} (kube : NodeClient K) (view : K → Text → Option Labels)
    : Type 0 where
  pub got : (n : Text) (s : K) (a : Labels) → kube.get n s ≡ ok a → view s n ≡ some a
  pub updated :
      (n : Text) (a : Labels) (s : K)
      → (kube.update n a s).1 ≡ ok tt
      → view (kube.update n a s).0 n ≡ some a
  pub other :
      (n : Text) (a : Labels) (s : K) (m : Text) → m ≢ n → view (kube.update n a s).0 m ≡ view s m

module _ {K : Type 0} (kube : NodeClient K) (view : K → Text → Option Labels)
    (laws : IsNodeClient kube view) where
  -- What is asked of one call.
  abbrev pub Annotates : Text → Text → Text → K → Labels → K → Type 0
  Annotates n ipv4 ipv6 s before s' =
      ((after : Labels) × (view s' n ≡ some after) × IsAnnotated ipv4 ipv6 before after)
      × ((m : Text) → m ≢ n → view s' m ≡ view s m)

  annotate_read :
      (n ipv4 ipv6 : Text) (s : K) (ann : Labels)
      → view s n ≡ some ann
      → kube.get n s ≡ ok ann
      → (annotate_node kube n ipv4 ipv6 s).1 ≡ ok tt
      → Annotates n ipv4 ipv6 s ann (annotate_node kube n ipv4 ipv6 s).0
  unfolding annotate_node
  annotate_read n ipv4 ipv6 s ann stored read done =
      let (ann', changed) = new_annotations ipv4 ipv6 ann in
      let good = new_annotations-IsAnnotated ipv4 ipv6 ann in
      elim (Bool-cases changed) [
        | inr same ↦
            rw (read, annotate_node, same)
              (
                (
                  ann,
                  stored,
                  subst (IsAnnotated ipv4 ipv6 ann) (unchanged_lem ipv4 ipv6 ann same) good,
                ),
                λ m ne. refl,
              )
        | inl new ↦
            let accepted = laws.updated n ann' s (ground arith) in
            rw (read, annotate_node, new) ((ann', accepted, good), λ m ne. laws.other n ann' s m ne)
      ]

  -- After a call that succeeds, the Node has the detected addresses as annotations, one that was
  -- not detected keeps its value, all other annotations are as before, and so are all other Nodes.
  pub annotate_node-IsAnnotated :
      (n ipv4 ipv6 : Text) (s : K) (before : Labels)
      → view s n ≡ some before
      → (annotate_node kube n ipv4 ipv6 s).1 ≡ ok tt
      → Annotates n ipv4 ipv6 s before (annotate_node kube n ipv4 ipv6 s).0
  unfolding annotate_node
  annotate_node-IsAnnotated n ipv4 ipv6 s before stored done = elim (Result-cases (kube.get n s)) [
    | inr (e, failed) ↦ absurd (ground arith)
    | inl (ann, read) ↦
        let same : ann ≡ before = ground (arith, laws.got n s ann read) in
        subst (λ (b : Labels). Annotates n ipv4 ipv6 s b (annotate_node kube n ipv4 ipv6 s).0) same
          (annotate_read n ipv4 ipv6 s ann (laws.got n s ann read) read done)
  ]
