-- ===== src/Flow/Validate/Accepted.antt =====
-- What an accepted flow satisfies.
use trawlarr.Prelude.{
  ◌≡◌, ◌≢◌, refl, inl, inr, true, false, Option, none, some, List, [], ◌∷◌, ◌++◌, Str, str_eq_iff,
  any_some, All, All-mem, All-mem_intro, Memᴰ, HasDistinctKeys, Bool-cases,
}
use trawlarr.Flow.{FlowNode, FlowEdge, FlowDefinition}
use trawlarr.Flow.Validate.Groups.{
  groups_from-HasDistinctKeys, duplicate_ids-le, ambiguous_edges-le,
}
use trawlarr.Flow.Validate.{
  is_nil, structural_problems, problems_with, is_node, unknown_ends, Resolver, graph_problems,
  validate_flow_definition, duplicate_ids, groups_from, node_key, ambiguous_edges, output_key,
}

pub append-nil {ℓ} : {A : Type ℓ} (xs ys : List A) → xs ++ ys ≡ [] → (xs ≡ []) × (ys ≡ [])
append-nil [] ys h = (refl, h)
append-nil (x ∷ xs) ys h = cc

-- There is a node with the id.
abbrev pub IsNodeId : List FlowNode → Str → Type 0
IsNodeId nodes id = (n : FlowNode) × Memᴰ n nodes × (n.id ≡ id)

abbrev pub HasEnds : List FlowNode → FlowEdge → Type 0
HasEnds nodes e = IsNodeId nodes e.from_node_id × IsNodeId nodes e.to_node_id

is_node-IsNodeId : (nodes : List FlowNode) (id : Str) → is_node nodes id ≡ true → IsNodeId nodes id
unfolding is_node
is_node-IsNodeId nodes id h = let (n, m, e) = any_some _ nodes h in (n, m, (str_eq_iff n.id id).0 e)

unknown_ends-HasEnds :
    (nodes : List FlowNode) (es : List FlowEdge)
    → unknown_ends nodes es ≡ []
    → All (HasEnds nodes) es
unfolding unknown_ends
unknown_ends-HasEnds nodes [] h = tt
unknown_ends-HasEnds nodes (e ∷ es) h = elim (Bool-cases (is_node nodes e.from_node_id)) [
  | inr f ↦ cc (rw (f, unknown_ends) at h)
  | inl t ↦ elim (Bool-cases (is_node nodes e.to_node_id)) [
    | inr f ↦ cc (rw (t, f, unknown_ends) at h)
    | inl t' ↦ (
      (is_node-IsNodeId nodes e.from_node_id t, is_node-IsNodeId nodes e.to_node_id t'),
      unknown_ends-HasEnds nodes es (rw (t, t', unknown_ends) at h),
    )
  ]
]

is_nil-nil {ℓ} : {A : Type ℓ} (xs : List A) → is_nil xs ≡ true → xs ≡ []
is_nil-nil [] t = refl
is_nil-nil (x ∷ xs) t = cc

nil_conflict {ℓ κ} : {A : Type ℓ} {C : Type κ} (xs : List A) → is_nil xs ≡ false → xs ≡ [] → C
nil_conflict xs f e = cc

problems_with-graph :
    (flow : FlowDefinition) (resolver : Option Resolver)
    → problems_with flow resolver ≡ []
    → graph_problems flow ≡ []
unfolding problems_with
problems_with-graph flow none h = h
problems_with-graph flow (some resolve) h = (append-nil (graph_problems flow) _ h).0

-- The checks of an accepted flow, of its plugins as far as they can be resolved.
pub accepted-problems_with :
    (flow : FlowDefinition) (resolver : Option Resolver)
    → validate_flow_definition flow resolver ≡ []
    → (structural_problems flow ≡ []) × (flow.nodes ≢ []) × (problems_with flow resolver ≡ [])
unfolding validate_flow_definition
accepted-problems_with flow resolver h = elim (Bool-cases (is_nil (structural_problems flow))) [
  | inr f ↦ nil_conflict (structural_problems flow) f (rw (f, validate_flow_definition) at h)
  | inl t ↦
      let fine = is_nil-nil (structural_problems flow) t in
      elim (Bool-cases (is_nil flow.nodes)) [
        | inl t' ↦ cc (rw (t, t', validate_flow_definition) at h)
        | inr f ↦ (fine, nil_conflict flow.nodes f, rw (t, f, validate_flow_definition) at h)
      ]
]

-- No other edge leaves the same node by the same output.
abbrev pub IsFunctional : List FlowEdge → Type 0
IsFunctional [] = Unit
IsFunctional (e ∷ es) =
    All (λ e'. e.from_node_id ≡ e'.from_node_id → e.output_number ≢ e'.output_number) es
    × IsFunctional es

distinct-IsFunctional : (es : List FlowEdge) → HasDistinctKeys output_key es → IsFunctional es
unfolding output_key
distinct-IsFunctional [] h = tt
distinct-IsFunctional (e ∷ es) (h, hs) = (
  All-mem_intro _ es (λ e' m from out. All-mem _ es h m (cc (from, out))),
  distinct-IsFunctional es hs,
)

pub record IsWellFormed (flow : FlowDefinition) : Type 0 where
  pub some_nodes : flow.nodes ≢ []
  pub distinct_ids : HasDistinctKeys node_key flow.nodes
  pub known_ends : All (HasEnds flow.nodes) flow.edges
  pub functional : IsFunctional flow.edges

-- A flow in which the validation finds no problem, whatever it can resolve of the plugins, has nodes
-- with distinct ids, edges between nodes of the flow, and from each node at most one edge for each
-- output.
pub accepted-IsWellFormed :
    (flow : FlowDefinition) (resolver : Option Resolver)
    → validate_flow_definition flow resolver ≡ []
    → IsWellFormed flow
unfolding graph_problems
accepted-IsWellFormed flow resolver h =
    let (_, some_nodes, rest_fine) = accepted-problems_with flow resolver h in
    let graph = problems_with-graph flow resolver rest_fine in
    let repeated = duplicate_ids (groups_from node_key [] flow.nodes) in
    let open_ended = unknown_ends flow.nodes flow.edges in
    let forks = ambiguous_edges (groups_from output_key [] flow.edges) in
    let (ids, rest) = append-nil repeated (open_ended ++ forks) graph in
    let (ends, outputs) = append-nil open_ended forks rest in
    record {
      some_nodes = some_nodes;
      distinct_ids =
          groups_from-HasDistinctKeys node_key flow.nodes (λ k. duplicate_ids-le k _ ids);
      known_ends = unknown_ends-HasEnds flow.nodes flow.edges ends;
      functional =
          distinct-IsFunctional flow.edges (
            groups_from-HasDistinctKeys output_key flow.edges
              (λ k. ambiguous_edges-le k _ outputs));
    }
