-- ===== src/Flow/Signature/Order.antt =====
-- The hash of a flow does not depend on the order of its nodes and edges.
use trawlarr.Prelude.{◌≡◌, refl, List, Str, Permᴰ, sort_by-Permᴰ, HasDistinctKeys}
use trawlarr.Flow.{FlowNode, FlowEdge}
use trawlarr.Flow.Signature.{node_key, edge_key, flow_json, flow_definition_hash}

-- Two flows with the same nodes and edges in any order have the same hash, where no two nodes share
-- an id and no two edges a key (the text of their ends and their output).
pub flow_definition_hash-Permᴰ :
    (sha256_hex : Str → Str) (nodes nodes' : List FlowNode) (edges edges' : List FlowEdge)
    → Permᴰ nodes nodes'
    → Permᴰ edges edges'
    → HasDistinctKeys node_key nodes
    → HasDistinctKeys edge_key edges
    → flow_definition_hash sha256_hex (record { nodes = nodes; edges = edges })
      ≡ flow_definition_hash sha256_hex (record { nodes = nodes'; edges = edges' })
unfolding flow_definition_hash flow_json
flow_definition_hash-Permᴰ sha256_hex nodes nodes' edges edges' p q d e =
    rw (sort_by-Permᴰ node_key p d, sort_by-Permᴰ edge_key q e) refl
