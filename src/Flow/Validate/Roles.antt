-- ===== src/Flow/Validate/Roles.antt =====
-- Where an accepted flow of flow-validate.ts starts.
use trawlarr.Prelude.{
  ◌≡◌, ◌≢◌, refl, sym, ◌∙◌, inl, inr, Option, none, HasDistinctKeys, ap, true, not, some, List, [],
  ◌∷◌, Memᴰ, is_some,
}
use trawlarr.Flow.{FlowNode, FlowDefinition}
use trawlarr.Flow.Validate.{
  FlowValidationCode, FlowValidationProblem, multiple_error_handlers, multiple_start_nodes,
  Resolver, capabilities_of, unique_nodes, several, nothing_to_start, start_nodes,
  unresolvable_nodes, role_problems, node_key, FlowNodeCapabilities, is_start, graph_problems,
  undeclared_outputs, problems_with, validate_flow_definition,
}
use trawlarr.Flow.Validate.Accepted.{append-nil, accepted-problems_with, accepted-IsWellFormed}
use trawlarr.Flow.Validate.Nodes.{
  unique_nodes-mem, filter-none, unique_nodes-IsKept, find-distinct, filter-mem, filter-mem_intro,
  same_node,
}

several-nil :
    (code : FlowValidationCode) (ns : List FlowNode) (rest : List FlowValidationProblem)
    → several code ns rest ≡ []
    → rest ≡ []
several-nil code [] rest h = h
several-nil code (n ∷ []) rest h = h
several-nil code (n ∷ n' ∷ ns) rest h = cc

one_of :
    (starts : List FlowNode)
    → several multiple_start_nodes starts (nothing_to_start starts []) ≡ []
    → (n : FlowNode) × (starts ≡ n ∷ [])
one_of [] h = cc
one_of (n ∷ []) h = (n, refl)
one_of (n ∷ n' ∷ ns) h = cc

-- The validation's own list of start nodes has one entry.
one_start_node :
    (flow : FlowDefinition) (resolve : Resolver)
    → validate_flow_definition flow (some resolve) ≡ []
    → ((n : FlowNode)
        → Memᴰ n flow.nodes
        → is_some (capabilities_of resolve flow.nodes n.id) ≡ true)
    → (n : FlowNode) × (start_nodes resolve flow.nodes ≡ n ∷ [])
unfolding problems_with role_problems unresolvable_nodes
one_start_node flow resolve h all_known =
    let found = accepted-problems_with flow (some resolve) h in
    let roles : role_problems resolve flow.nodes ≡ [] =
      (append-nil (undeclared_outputs resolve flow.nodes flow.edges)
        (role_problems resolve flow.nodes) (append-nil (graph_problems flow) _ found.2).1).1 in
    let starts : several multiple_start_nodes (start_nodes resolve flow.nodes) (
          nothing_to_start (start_nodes resolve flow.nodes) (unresolvable_nodes resolve flow.nodes))
        ≡ [] =
      several-nil multiple_error_handlers _ _ roles in
    let none_left : unresolvable_nodes resolve flow.nodes ≡ [] =
      filter-none _ (unique_nodes [] flow.nodes)
        (λ n m. ap not (all_known n (unique_nodes-mem [] flow.nodes m))) in
    one_of (start_nodes resolve flow.nodes) (rw none_left at starts)

-- The node's plugin can be resolved, and is a start plugin.
abbrev pub IsStart : Resolver → FlowNode → Type 0
IsStart resolve n = (c : FlowNodeCapabilities) × (resolve n ≡ some c) × (c.is_start_plugin ≡ true)

caps-resolve :
    (nodes : List FlowNode) (resolve : Resolver) (n : FlowNode)
    → HasDistinctKeys node_key nodes
    → Memᴰ n nodes
    → capabilities_of resolve nodes n.id ≡ resolve n
unfolding capabilities_of
caps-resolve nodes resolve n d m = rw (capabilities_of, find-distinct nodes n d m) refl

is_some-intro : (o : Option FlowNodeCapabilities) → o ≢ none → is_some o ≡ true
is_some-intro none n = absurd (n refl)
is_some-intro (some c) n = refl

is_start-inv :
    (o : Option FlowNodeCapabilities)
    → is_start o ≡ true
    → (c : FlowNodeCapabilities) × (o ≡ some c) × (c.is_start_plugin ≡ true)
is_start-inv none t = cc
is_start-inv (some c) t = (c, refl, t)

only_start :
    (nodes : List FlowNode) (resolve : Resolver) (n : FlowNode)
    → HasDistinctKeys node_key nodes
    → Memᴰ n nodes
    → start_nodes resolve nodes ≡ n ∷ []
    → (k : FlowNode) → Memᴰ k nodes
    → IsStart resolve k
    → k ≡ n
unfolding start_nodes
only_start nodes resolve n d m one k mk (c, e, t) = elim (unique_nodes-IsKept [] nodes k mk) [
  | inr never ↦ cc
  | inl (k', m', same) ↦
      let starts : is_start (capabilities_of resolve nodes k'.id) ≡ true =
        rw (same, caps-resolve nodes resolve k d mk, e) t in
      let listed : Memᴰ k' (start_nodes resolve nodes) = filter-mem_intro _ _ k' m' starts in
      elim (rw one at listed) [
        | Memᴰ.head e' ↦ same_node nodes k n d mk m (sym same ∙ ap (λ x. x.id) e')
        | Memᴰ.tail rest ↦ elim rest [ ]
      ]
]

-- An accepted flow whose plugins can all be resolved has exactly one node whose plugin is a start
-- plugin.
pub accepted_one-IsStart :
    (flow : FlowDefinition) (resolve : Resolver)
    → validate_flow_definition flow (some resolve) ≡ []
    → ((n : FlowNode) → Memᴰ n flow.nodes → resolve n ≢ none)
    → (n : FlowNode) × Memᴰ n flow.nodes
      × IsStart resolve n
      × ((k : FlowNode) → Memᴰ k flow.nodes → IsStart resolve k → k ≡ n)
unfolding start_nodes capabilities_of
accepted_one-IsStart flow resolve h known =
    let ids = (accepted-IsWellFormed flow (some resolve) h).distinct_ids in
    let (n, one) = one_start_node flow resolve h (λ n m.
      rw (caps-resolve flow.nodes resolve n ids m) (is_some-intro (resolve n) (known n m))) in
    let only : Memᴰ n (start_nodes resolve flow.nodes) = rw one (Memᴰ.head refl) in
    let (m, start) = filter-mem _ (unique_nodes [] flow.nodes) n only in
    let m' = unique_nodes-mem [] flow.nodes m in
    (
      n,
      m',
      is_start-inv (resolve n) (rw (caps-resolve flow.nodes resolve n ids m') at start),
      only_start flow.nodes resolve n ids m' one,
    )
