-- ===== src/Flow/Signature/Tests.antt =====
-- A flow, and the same flow with its nodes the other way round.
use trawlarr.Prelude.{◌≡◌, ◌≢◌, refl, List, [], ◌∷◌, Str, codes, Permᴰ, pos, str_eq, str_eq_iff}
use trawlarr.Json.{end}
use trawlarr.Flow.{FlowNode, FlowEdge}
use trawlarr.Flow.Signature.{node_key, flow_definition_hash}
use trawlarr.Flow.Signature.Order.{flow_definition_hash-Permᴰ}

abbrev first : FlowNode
first = record { id = codes "a"; plugin_id = codes "p"; plugin_version = codes "1"; inputs = end }

abbrev second : FlowNode
second = record { id = codes "b"; plugin_id = codes "p"; plugin_version = codes "1"; inputs = end }

abbrev edges : List FlowEdge
edges = record { from_node_id = codes "a"; output_number = pos 1; to_node_id = codes "b" } ∷ []

abbrev plain : Str → Str
plain s = s

not_same : node_key first ≢ node_key second
unfolding str_eq
not_same e = cc ((str_eq_iff (node_key first) (node_key second)).1 e)

flow_definition_hash-Permᴰ_example :
    flow_definition_hash plain (record { nodes = first ∷ second ∷ []; edges = edges })
    ≡ flow_definition_hash plain (record { nodes = second ∷ first ∷ []; edges = edges })
flow_definition_hash-Permᴰ_example =
    flow_definition_hash-Permᴰ plain (first ∷ second ∷ []) (second ∷ first ∷ []) edges edges
      (Permᴰ.swap refl refl) (Permᴰ.cons refl Permᴰ.nil) ((not_same, tt), (tt, tt)) (tt, tt)
