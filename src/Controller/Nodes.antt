-- ===== src/Controller/Nodes.antt =====
-- The nodes' public addresses as the controller reads them (`nodePublicIPs` of
-- internal/controller/reconciler.go), from the annotations that the labeler writes.
use bulb.Base.{
  ◌≡◌, ◌∙◌, if◌then◌else◌, Bool, true, false, not, ◌&&◌, ◌||◌, List, [], ◌∷◌, ◌++◌, Text, codes,
  is_empty, text_discrete, text_less, text_less-IsOrder, ite, contains, contains-append, any, arith,
  subst,
}
use bulb.Base.Sort.{sort, contains-sort_self, IsSorted, sort-IsSorted, IsOrder-IsWeakOrder}
use bulb.Base.Result.{Result, ok, err, wrap}
use bulb.Api.{get_label}
use bulb.Labeler.{annotation_ipv4, annotation_ipv6}
use bulb.Controller.LbPorts.{Node}

-- An address joins the list once.
unfoldable pub see_ip : Text → List Text → List Text
see_ip ip ips = if is_empty ip || contains text_discrete ip ips then ips else ips ++ ip ∷ []

unfoldable pub collect_ips : List Node → List Text → List Text
unfolding see_ip
collect_ips [] ips = ips
collect_ips (node ∷ nodes) ips = collect_ips nodes (
    if node.unschedulable
    then ips
    else see_ip (get_label annotation_ipv6 node.annotations)
        (see_ip (get_label annotation_ipv4 node.annotations) ips))

unfoldable pub node_public_ips : Result (List Node) → Result (List Text)
unfolding collect_ips sort text_less
node_public_ips (err e) = wrap (codes "list nodes") (err e)
node_public_ips (ok nodes) = ok (sort text_less (collect_ips nodes []))

abbrev pub same_text : Text → Text → Bool
same_text a b = ite (text_discrete a b) true false

-- The node is schedulable and has the address as an annotation.
abbrev pub has_ip : Text → Node → Bool
has_ip ip node =
    not node.unschedulable
    && (same_text ip (get_label annotation_ipv4 node.annotations)
        || same_text ip (get_label annotation_ipv6 node.annotations))

contains-see_ip :
    (ip new : Text) (ips : List Text)
    → contains text_discrete ip (see_ip new ips)
      ≡ (contains text_discrete ip ips || not (is_empty new) && same_text ip new)
unfolding see_ip
contains-see_ip ip new ips = ground (arith, contains-append text_discrete ip ips (new ∷ []))

empty_lem :
    (ip new : Text)
    → (not (is_empty new) && same_text ip new) ≡ (not (is_empty ip) && same_text ip new)
empty_lem ip new = ground arith

contains-collect_ips :
    (ip : Text) (nodes : List Node) (ips : List Text)
    → contains text_discrete ip (collect_ips nodes ips)
      ≡ (contains text_discrete ip ips || not (is_empty ip) && any (has_ip ip) nodes)
unfolding collect_ips
contains-collect_ips ip [] ips = ground arith
contains-collect_ips ip (node ∷ nodes) ips =
    let a = get_label annotation_ipv4 node.annotations in
    let b = get_label annotation_ipv6 node.annotations in
    ground (
      arith,
      contains-collect_ips ip nodes ips,
      contains-collect_ips ip nodes (see_ip b (see_ip a ips)),
      contains-see_ip ip b (see_ip a ips),
      contains-see_ip ip a ips,
      empty_lem ip a,
      empty_lem ip b,
    )

-- The list of public addresses is sorted, and holds exactly the addresses that a schedulable node
-- has as one of the labeler's two annotations.
pub node_public_ips-contains :
    (nodes : List Node) (ips : List Text)
    → node_public_ips (ok nodes) ≡ ok ips
    → IsSorted text_less ips
      × ((ip : Text) → contains text_discrete ip ips ≡ (not (is_empty ip) && any (has_ip ip) nodes))
unfolding node_public_ips
node_public_ips-contains nodes ips read =
    let same : sort text_less (collect_ips nodes []) ≡ ips = ground arith in
    subst
      (λ (xs : List Text).
        IsSorted text_less xs
        × ((ip : Text)
            → contains text_discrete ip xs ≡ (not (is_empty ip) && any (has_ip ip) nodes)))
      same
      (
        sort-IsSorted (IsOrder-IsWeakOrder text_less-IsOrder) (collect_ips nodes []),
        λ ip.
            contains-sort_self text_less text_discrete ip (collect_ips nodes [])
            ∙ contains-collect_ips ip nodes [],
      )
