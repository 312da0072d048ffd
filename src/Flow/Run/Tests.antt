-- ===== src/Flow/Run/Tests.antt =====
-- A flow of three nodes, run.
use trawlarr.Prelude.{
  Memᴰ, filter, ℕ, ◌≤◌, ◌≡◌, ◌≢◌, refl, true, false, Option, none, some, List, [], ◌∷◌, ◌++◌, Str,
  codes, str_eq, if◌then◌else◌, ℤ, pos, int_eq, int_text, length, find,
}
use trawlarr.Json.{end}
use trawlarr.Flow.{FlowNode, FlowEdge, FlowDefinition}
use trawlarr.Flow.Validate.Roles.{IsStart, accepted_one-IsStart}
use trawlarr.Flow.Validate.{Resolver, is_node, validate_flow_definition}
use trawlarr.Flow.Validate.Accepted.{IsWellFormed, accepted-IsWellFormed}
use trawlarr.Flow.Run.{
  Verdict, success, Details, loaded, StepRecord, end_of_flow, missing_node, FlowRunResult, Answer,
  returned, threw, called, Host, Options, Run, finished, leaves_by, run_flow,
}
use trawlarr.Flow.Run.Outcome.{
  Trail, steps_of, run_flow_terminates, run_flow-Trail, end_of_flow_last, accepted_never_missing,
}

abbrev start_node : FlowNode
start_node = record {
  id = codes "s";
  plugin_id = codes "start";
  plugin_version = codes "1";
  inputs = end;
}

abbrev work_node : FlowNode
work_node = record {
  id = codes "w";
  plugin_id = codes "work";
  plugin_version = codes "1";
  inputs = end;
}

abbrev error_node : FlowNode
error_node = record {
  id = codes "e";
  plugin_id = codes "error";
  plugin_version = codes "1";
  inputs = end;
}

abbrev to_work : FlowEdge
to_work = record { from_node_id = codes "s"; output_number = pos 1; to_node_id = codes "w" }

abbrev small_flow : FlowDefinition
small_flow = record { nodes = start_node ∷ work_node ∷ error_node ∷ []; edges = to_work ∷ [] }

abbrev details_of : Str → Details
details_of id = record {
  name = id;
  is_start_plugin = str_eq id (codes "s");
  is_error_handler = str_eq id (codes "e");
  outputs = (pos 1, some success) ∷ [];
}

-- The work fails; everything else takes its first output.
abbrev answer_of : Str → Answer Unit
answer_of id = if str_eq id (codes "w") then threw (codes "boom") else returned (pos 1) none none

abbrev small_host : Host Unit
small_host = record {
  load_plugin = λ calls n. loaded (details_of n.id);
  call_plugin = λ seq n d path v. called (codes "log" ∷ []) (answer_of n.id);
  step_duration = λ seq. seq;
}

abbrev small_options : Options
small_options = record {
  flow = small_flow;
  initial_path = codes "/a.mkv";
  start_node_id = none;
  max_steps = 500;
  route_load_errors = true;
}

abbrev step : ℕ → Str → Str → Option ℤ → Option Verdict → Option Str → StepRecord
step seq id plugin_id output outcome error = record {
  seq = seq;
  node_id = id;
  plugin_id = plugin_id;
  plugin_name = id;
  output_number = output;
  output_outcome = outcome;
  duration_ms = seq;
  log_excerpt = codes "log";
  error = error;
}

abbrev last_step : StepRecord
last_step = step 3 (codes "e") (codes "error") (some (pos 1)) (some success) none

abbrev small_steps : List StepRecord
small_steps =
    step 1 (codes "s") (codes "start") (some (pos 1)) (some success) none
    ∷ step 2 (codes "w") (codes "work") none none (some (codes "boom"))
    ∷ last_step
    ∷ []

abbrev small_result : FlowRunResult Unit
small_result = record {
  steps = small_steps;
  variables = record {
    rest = tt;
    flow_failed = true;
    flow_error = some (record {
      node_id = codes "w";
      plugin_id = codes "work";
      plugin_name = codes "w";
      message = codes "boom";
    });
    flow_error_outcome = none;
  };
  current_path = codes "/a.mkv";
  failed = false;
  stop_reason = end_of_flow;
  error = none;
  review_reason = none;
}

-- The failed work leads to the error handler, where the flow ends.
small_run : run_flow small_host small_options tt ≡ some (finished small_result)
unfolding run_flow str_eq int_eq find
small_run = refl

accepted : validate_flow_definition small_flow none ≡ []
unfolding validate_flow_definition str_eq int_text is_node
accepted = refl

run_flow_terminates_example :
    (r : Run Unit) × (run_flow small_host small_options tt ≡ some r) × (length (steps_of r) ≤ 500)
run_flow_terminates_example = run_flow_terminates small_host small_options tt

run_flow-Trail_example : Trail small_host small_options small_steps
run_flow-Trail_example =
    run_flow-Trail small_host small_options tt (finished small_result) small_run

end_of_flow_last_example :
    (x : StepRecord) × (before : List StepRecord) × (small_steps ≡ before ++ x ∷ [])
    × (x.error ≡ none)
    × (output : ℤ) × (x.output_number ≡ some output)
    × (find (leaves_by small_host small_options x.node_id (some output)) (to_work ∷ []) ≡ none)
end_of_flow_last_example = end_of_flow_last small_host small_options tt small_result small_run refl

accepted_never_missing_example : end_of_flow ≢ missing_node
accepted_never_missing_example =
    accepted_never_missing small_host small_options none tt small_result accepted small_run

accepted-IsWellFormed_example : IsWellFormed small_flow
accepted-IsWellFormed_example = accepted-IsWellFormed small_flow none accepted

abbrev resolve_all : Resolver
resolve_all n = some (record {
  output_numbers = pos 1 ∷ [];
  is_start_plugin = str_eq n.id (codes "s");
  is_error_handler = str_eq n.id (codes "e");
})

accepted_resolved : validate_flow_definition small_flow (some resolve_all) ≡ []
unfolding validate_flow_definition str_eq int_text is_node int_eq find filter
accepted_resolved = refl

accepted_one-IsStart_example :
    (n : FlowNode) × Memᴰ n small_flow.nodes
    × IsStart resolve_all n
    × ((k : FlowNode) → Memᴰ k small_flow.nodes → IsStart resolve_all k → k ≡ n)
accepted_one-IsStart_example =
    accepted_one-IsStart small_flow resolve_all accepted_resolved (λ n m e. cc)
