-- ===== src/Flow/Signature.antt =====
-- packages/core/src/signature.ts: the hash of a flow, and the signature of a file under a flow.
--
-- `sha256Hex` is an argument. `none` stands for the error that canonicalJson throws.
use trawlarr.Prelude.{ℕ, Option, none, some, List, [], ◌∷◌, Str, codes, sort_by}
pub mod Order
mod Tests
use mathlib.Core.Option
use trawlarr.Flow.{FlowNode, FlowEdge, FlowDefinition}
use trawlarr.Json.{Json, Items, Fields, str, num, arr, obj, nil, item, end, field, canonical_json}
use trawlarr.Facts.{FactSet, facts_hash}

abbrev pub node_key : FlowNode → Str
node_key n = n.id

abbrev edge_items : FlowEdge → Json
edge_items e =
    arr (item (str e.from_node_id) (item (num e.output_number) (item (str e.to_node_id) nil)))

-- `canonicalJson` does not refuse a list of two texts and a number.
unfoldable pub edge_key : FlowEdge → Str
unfolding canonical_json
edge_key e = elim (canonical_json (edge_items e)) [ some text ↦ text | none ↦ [] ]

abbrev node_json : FlowNode → Json
node_json n = obj (
    field (codes "id") (str n.id) (
      field (codes "pluginId") (str n.plugin_id) (
        field (codes "pluginVersion") (str n.plugin_version)
          (field (codes "inputs") (obj n.inputs) end))))

abbrev edge_json : FlowEdge → Json
edge_json e = obj (
    field (codes "fromNodeId") (str e.from_node_id) (
      field (codes "outputNumber") (num e.output_number)
        (field (codes "toNodeId") (str e.to_node_id) end)))

abbrev pub items_from {ℓ} : {A : Type ℓ} → (A → Json) → List A → Items
items_from to_json [] = nil
items_from to_json (x ∷ xs) = item (to_json x) (items_from to_json xs)

unfoldable pub flow_json : FlowDefinition → Json
unfolding sort_by edge_key
flow_json flow = obj (
    field (codes "nodes") (arr (items_from node_json (sort_by node_key flow.nodes)))
      (field (codes "edges") (arr (items_from edge_json (sort_by edge_key flow.edges))) end))

unfoldable pub flow_definition_hash : (Str → Str) → FlowDefinition → Option Str
unfolding flow_json canonical_json
flow_definition_hash sha256_hex flow = Option.map sha256_hex (canonical_json (flow_json flow))

abbrev sign : (Str → Str) → Str → Option Str → Option Str
unfolding canonical_json
sign sha256_hex hash none = none
sign sha256_hex hash (some facts) =
    Option.map sha256_hex (canonical_json (arr (item (str hash) (item (str facts) nil))))

unfoldable pub compute_signature : (Str → Str) → Str → FactSet → Option Str
unfolding facts_hash sign
compute_signature sha256_hex flow_hash facts =
    sign sha256_hex flow_hash (facts_hash sha256_hex facts)
