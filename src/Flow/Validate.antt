-- ===== src/Flow/Validate.antt =====
-- packages/core/src/flow-validate.ts: what is wrong with a flow.
--
-- A problem keeps its code and the node and the edge that it names; the wording of its message is
-- left out. The resolver of a plugin's capabilities is an argument, `none` where the caller gives no
-- resolver, and its answer `none` where it cannot resolve the plugin. A flow here already has the
-- shape of its type, so of the structural checks those remain that such a value can fail.
pub mod Groups
pub mod Accepted
pub mod Nodes
pub mod Roles
use trawlarr.Prelude.{
  ℕ, zero, suc, ◌+◌, Bool, true, false, ◌&&◌, ◌||◌, not, Option, none, some, List, [], ◌∷◌, ◌++◌,
  Str, codes, str_eq, if◌then◌else◌, ltb, leb, ◌==◌, ℤ, int_eq, int_text, length, any, find, filter,
  is_some,
}
use trawlarr.Flow.{FlowNode, FlowEdge, FlowDefinition}

pub record FlowNodeCapabilities : Type 0 where
  pub output_numbers : List ℤ
  pub is_start_plugin : Bool
  pub is_error_handler : Bool

abbrev pub is_nil {ℓ} : {A : Type ℓ} → List A → Bool
is_nil [] = true
is_nil (x ∷ xs) = false

unfoldable pub is_terminal_node : FlowNodeCapabilities → Bool
is_terminal_node c = is_nil c.output_numbers

pub data FlowValidationCode : Type 0 where
  malformed duplicate_node_id edge_unknown_node edge_undeclared_output : FlowValidationCode
  edge_from_terminal_node ambiguous_edge no_nodes no_start_node : FlowValidationCode
  multiple_start_nodes multiple_error_handlers : FlowValidationCode

pub record FlowValidationProblem : Type 0 where
  pub code : FlowValidationCode
  pub node_id : Option Str
  pub edge : Option FlowEdge

abbrev pub problem : FlowValidationCode → FlowValidationProblem
problem code = record { code = code; node_id = none; edge = none }

abbrev pub usable_node : FlowNode → Bool
usable_node n = not (is_nil n.id) && not (is_nil n.plugin_id)

abbrev pub usable_edge : FlowEdge → Bool
usable_edge e = not (is_nil e.from_node_id) && not (is_nil e.to_node_id)

node_shapes : List FlowNode → List FlowValidationProblem
node_shapes [] = []
node_shapes (n ∷ ns) = if usable_node n then node_shapes ns else problem malformed ∷ node_shapes ns

edge_shapes : List FlowEdge → List FlowValidationProblem
edge_shapes [] = []
edge_shapes (e ∷ es) = if usable_edge e then edge_shapes es else problem malformed ∷ edge_shapes es

unfoldable pub structural_problems : FlowDefinition → List FlowValidationProblem
unfolding node_shapes edge_shapes
structural_problems flow = node_shapes flow.nodes ++ edge_shapes flow.edges

-- A `Map` from a text to the list of what was pushed under it, in the order of first insertion.
module _ {ℓ} {A : Type ℓ} where
  abbrev pub push_group : Str → A → List (Str × List A) → List (Str × List A)
  push_group key x [] = (key, x ∷ []) ∷ []
  push_group key x ((k, xs) ∷ groups) =
      if str_eq k key then (k, xs ++ x ∷ []) ∷ groups else (k, xs) ∷ push_group key x groups

  unfoldable pub groups_from : (A → Str) → List (Str × List A) → List A → List (Str × List A)
  groups_from key groups [] = groups
  groups_from key groups (x ∷ xs) = groups_from key (push_group (key x) x groups) xs

abbrev pub node_key : FlowNode → Str
node_key n = n.id

unfoldable pub duplicate_ids : List (Str × List FlowNode) → List FlowValidationProblem
duplicate_ids [] = []
duplicate_ids ((id, nodes) ∷ groups) =
    if ltb (length nodes) 2
    then duplicate_ids groups
    else record { code = duplicate_node_id; node_id = some id; edge = none } ∷ duplicate_ids groups

abbrev pub same_id : Str → FlowNode → Bool
same_id id n = str_eq n.id id

unfoldable pub is_node : List FlowNode → Str → Bool
is_node nodes id = any (same_id id) nodes

abbrev unknown_end : Bool → FlowEdge → List FlowValidationProblem → List FlowValidationProblem
unknown_end known e rest =
    if known
    then rest
    else record { code = edge_unknown_node; node_id = none; edge = some e } ∷ rest

-- An edge with two unknown ends is reported twice.
unfoldable pub unknown_ends : List FlowNode → List FlowEdge → List FlowValidationProblem
unknown_ends nodes [] = []
unknown_ends nodes (e ∷ es) =
    unknown_end (is_node nodes e.from_node_id) e
      (unknown_end (is_node nodes e.to_node_id) e (unknown_ends nodes es))

-- The key of an edge's output; the separator is the character 0.
unfoldable pub output_key : FlowEdge → Str
output_key e = e.from_node_id ++ 0 ∷ int_text e.output_number

abbrev ambiguous : List FlowEdge → List FlowValidationProblem → List FlowValidationProblem
ambiguous [] rest = rest
ambiguous (first ∷ []) rest = rest
ambiguous (first ∷ second ∷ more) rest =
    record { code = ambiguous_edge; node_id = some first.from_node_id; edge = some first } ∷ rest

unfoldable pub ambiguous_edges : List (Str × List FlowEdge) → List FlowValidationProblem
ambiguous_edges [] = []
ambiguous_edges ((key, edges) ∷ groups) = ambiguous edges (ambiguous_edges groups)

abbrev pub Resolver : Type 0
Resolver = FlowNode → Option FlowNodeCapabilities

-- `capabilitiesByNodeId.get(id)`: the first node with the id is resolved.
unfoldable pub capabilities_of : Resolver → List FlowNode → Str → Option FlowNodeCapabilities
capabilities_of resolve nodes id = elim (find (same_id id) nodes) [
  | none ↦ none
  | some n ↦ resolve n
]

abbrev pub includes_output : List ℤ → ℤ → Bool
includes_output outputs n = any (λ o. int_eq o n) outputs

abbrev output_problem :
    Option FlowNodeCapabilities → FlowEdge → List FlowValidationProblem → List FlowValidationProblem
output_problem none e rest = rest
output_problem (some c) e rest =
    if includes_output c.output_numbers e.output_number
    then rest
    else if is_nil c.output_numbers
    then record { code = edge_from_terminal_node; node_id = some e.from_node_id; edge = some e }
      ∷ rest
    else record { code = edge_undeclared_output; node_id = some e.from_node_id; edge = some e }
      ∷ rest

-- For an edge that leaves an unknown node there are no capabilities.
unfoldable pub undeclared_outputs :
    Resolver → List FlowNode → List FlowEdge → List FlowValidationProblem
unfolding capabilities_of
undeclared_outputs resolve nodes [] = []
undeclared_outputs resolve nodes (e ∷ es) =
    output_problem (capabilities_of resolve nodes e.from_node_id) e
      (undeclared_outputs resolve nodes es)

-- The nodes whose id did not occur before.
unfoldable pub unique_nodes : List FlowNode → List FlowNode → List FlowNode
unique_nodes before [] = []
unique_nodes before (n ∷ ns) =
    let rest = unique_nodes (before ++ n ∷ []) ns in
    if any (same_id n.id) before then rest else n ∷ rest

abbrev pub is_start : Option FlowNodeCapabilities → Bool
is_start none = false
is_start (some c) = c.is_start_plugin

abbrev is_handler : Option FlowNodeCapabilities → Bool
is_handler none = false
is_handler (some c) = c.is_error_handler

abbrev pub several :
    FlowValidationCode → List FlowNode → List FlowValidationProblem → List FlowValidationProblem
several code [] rest = rest
several code (n ∷ []) rest = rest
several code (n ∷ n' ∷ ns) rest = record { code = code; node_id = some n.id; edge = none } ∷ rest

abbrev pub nothing_to_start : List FlowNode → List FlowNode → List FlowValidationProblem
nothing_to_start [] [] = problem no_start_node ∷ []
nothing_to_start _ _ = []

-- The nodes with different ids whose plugin is a start plugin.
unfoldable pub start_nodes : Resolver → List FlowNode → List FlowNode
unfolding unique_nodes capabilities_of
start_nodes resolve nodes =
    filter (λ n. is_start (capabilities_of resolve nodes n.id)) (unique_nodes [] nodes)

unfoldable pub unresolvable_nodes : Resolver → List FlowNode → List FlowNode
unfolding unique_nodes capabilities_of
unresolvable_nodes resolve nodes =
    filter (λ n. not (is_some (capabilities_of resolve nodes n.id))) (unique_nodes [] nodes)

unfoldable pub role_problems : Resolver → List FlowNode → List FlowValidationProblem
unfolding unique_nodes capabilities_of start_nodes unresolvable_nodes
role_problems resolve nodes =
    let handlers =
      filter (λ n. is_handler (capabilities_of resolve nodes n.id)) (unique_nodes [] nodes) in
    several multiple_error_handlers handlers (
      several multiple_start_nodes (start_nodes resolve nodes)
        (nothing_to_start (start_nodes resolve nodes) (unresolvable_nodes resolve nodes)))

-- The checks that need no plugin.
unfoldable pub graph_problems : FlowDefinition → List FlowValidationProblem
unfolding duplicate_ids unknown_ends ambiguous_edges groups_from
graph_problems flow =
    duplicate_ids (groups_from node_key [] flow.nodes)
    ++ (unknown_ends flow.nodes flow.edges
        ++ ambiguous_edges (groups_from output_key [] flow.edges))

abbrev pub problems_with : FlowDefinition → Option Resolver → List FlowValidationProblem
unfolding graph_problems undeclared_outputs role_problems
problems_with flow none = graph_problems flow
problems_with flow (some resolve) =
    graph_problems flow
    ++ (undeclared_outputs resolve flow.nodes flow.edges ++ role_problems resolve flow.nodes)

unfoldable pub validate_flow_definition :
    FlowDefinition → Option Resolver → List FlowValidationProblem
unfolding structural_problems problems_with
validate_flow_definition flow resolver =
    if not (is_nil (structural_problems flow))
    then structural_problems flow
    else if is_nil flow.nodes
    then problem no_nodes ∷ []
    else problems_with flow resolver
