-- ===== src/Flow.antt =====
-- packages/core/src/flow.ts: a flow as a graph. A node's inputs are the fields of a JSON object.
pub mod Validate
pub mod Signature
pub mod Run
use trawlarr.Prelude.{List, Str, ℤ}
use trawlarr.Json.{Fields}

pub record FlowNode : Type 0 where
  pub id : Str
  pub plugin_id : Str
  pub plugin_version : Str
  pub inputs : Fields

pub record FlowEdge : Type 0 where
  pub from_node_id : Str
  pub output_number : ℤ
  pub to_node_id : Str

pub record FlowDefinition : Type 0 where
  pub nodes : List FlowNode
  pub edges : List FlowEdge
