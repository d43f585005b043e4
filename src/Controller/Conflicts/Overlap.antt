-- ===== src/Controller/Conflicts/Overlap.antt =====
-- Node scopes that overlap.
use bulb.Base.{
  ◌≡◌, refl, ◌≢◌, ◌∙◌, ◌⊎◌, Bool, true, false, ◌&&◌, ◌||◌, List, [], ◌∷◌, Text, codes,
  text_discrete, text_less, arith, contains, keep, inl, inr, All, is_empty, contains-keep, if_neg,
}
use bulb.Base.Sort.{sort, contains-sort_self}
use bulb.Api.{all_nodes_token}
use bulb.Controller.Conflicts.{is_all_nodes, sorted_concrete_nodes, overlapping_nodes}
use bulb.Firewall.Desired.{applies_to_node}

-- A node's name: not empty, and not the token for all nodes.
abbrev pub IsNode : Text → Type 0
IsNode n = (n ≢ codes "") × (n ≢ all_nodes_token)

-- The node scopes that the controller writes: all nodes, or a list of names.
abbrev pub IsScope : List Text → Type 0
IsScope nodes = (nodes ≡ all_nodes_token ∷ []) ⊎ All IsNode nodes

applies-contains :
    (n : Text) (nodes : List Text)
    → All IsNode nodes
    → applies_to_node nodes n ≡ contains text_discrete n nodes
unfolding applies_to_node
applies-contains n [] h = refl
applies-contains n (m ∷ nodes) (p, h) = ground (arith, applies-contains n nodes h)

empty_of_none :
    (xs : List Text) (n : Text) → is_empty xs ≡ true → contains text_discrete n xs ≡ false
empty_of_none [] n h = refl
empty_of_none (x ∷ xs) n h = cc

is_all_nodes_lem : (nodes : List Text) → All IsNode nodes → is_all_nodes nodes ≡ false
unfolding is_all_nodes
is_all_nodes_lem [] h = refl
is_all_nodes_lem (n ∷ []) ((p, q), h) = ground arith
is_all_nodes_lem (n ∷ m ∷ ns) h = refl

not_empty : (n : Text) → n ≢ codes "" → is_empty n ≡ false
not_empty [] h = absurd (h refl)
not_empty (c ∷ n) h = refl

concrete-contains :
    (n : Text) (nodes : List Text)
    → IsNode n
    → contains text_discrete n (sorted_concrete_nodes nodes) ≡ contains text_discrete n nodes
unfolding sorted_concrete_nodes
concrete-contains n nodes (p, q) =
    contains-sort_self text_less text_discrete n _
    ∙ contains-keep text_discrete n _ nodes
    ∙ rw (if_neg (text_discrete n all_nodes_token) q, not_empty n p) (ground arith)

common-contains :
    (n : Text) (a b : List Text)
    → contains text_discrete n (sort text_less (keep (λ m. contains text_discrete m a) b))
      ≡ (contains text_discrete n b && contains text_discrete n a)
common-contains n a b =
    contains-sort_self text_less text_discrete n _ ∙ contains-keep text_discrete n _ b

abbrev both_all : List Text → List Text → Bool
both_all a b = is_all_nodes a && is_all_nodes b

all_nodes_lem : is_all_nodes (all_nodes_token ∷ []) ≡ true
unfolding is_all_nodes text_discrete
all_nodes_lem = refl

applies_all : (n : Text) → applies_to_node (all_nodes_token ∷ []) n ≡ true
unfolding applies_to_node text_discrete
applies_all n = refl

-- The nodes that two scopes have in common are those to which both apply, in the firewall agent's
-- sense; where both are all nodes, every node is.
pub contains-overlapping_nodes :
    (a b : List Text) (n : Text)
    → IsScope a
    → IsScope b
    → IsNode n
    → (contains text_discrete n (overlapping_nodes a b) || both_all a b)
      ≡ (applies_to_node a n && applies_to_node b n)
unfolding overlapping_nodes
contains-overlapping_nodes a b n (inl p) (inl q) h =
    rw (p, q, all_nodes_lem, applies_all n) (ground arith)
contains-overlapping_nodes a b n (inl p) (inr names_b) h =
    rw (p, all_nodes_lem, applies_all n, is_all_nodes_lem b names_b)
      (ground (arith, concrete-contains n b h, applies-contains n b names_b, empty_of_none b n))
contains-overlapping_nodes a b n (inr names_a) (inl q) h =
    rw (q, all_nodes_lem, applies_all n, is_all_nodes_lem a names_a)
      (ground (arith, concrete-contains n a h, applies-contains n a names_a, empty_of_none a n))
contains-overlapping_nodes a b n (inr names_a) (inr names_b) h = ground (
  arith,
  is_all_nodes_lem a names_a,
  is_all_nodes_lem b names_b,
  common-contains n a b,
  applies-contains n a names_a,
  applies-contains n b names_b,
)
