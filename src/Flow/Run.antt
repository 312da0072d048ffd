-- ===== src/Flow/Run.antt =====
-- packages/engine/src/executor/run-flow.ts: running a flow.
--
-- Arguments are the loader (its answer may depend on how often it was asked), the construction of the
-- plugin's arguments together with the plugin itself (which may depend on anything that it is given),
-- and the time that a step took. What a `FlowAbort`, or a failure to build the arguments, does to
-- the run is `rejected`. Output numbers are integers; the wording of the run's own errors is a
-- constructor.
pub mod Loading
pub mod Progress
pub mod Outcome
mod Tests
use trawlarr.Prelude.{
  ℕ, zero, suc, ◌+◌, Bool, true, false, ◌&&◌, ◌||◌, not, Option, none, some, List, [], ◌∷◌, ◌++◌,
  Str, codes, str_eq, if◌then◌else◌, ltb, leb, ◌==◌, ℤ, int_eq, int_text, length, find, trim,
}
use trawlarr.Flow.{FlowNode, FlowEdge, FlowDefinition}

pub data Verdict : Type 0 where
  success failure : Verdict

pub record Details : Type 0 where
  pub name : Str
  pub is_start_plugin : Bool
  pub is_error_handler : Bool
  pub outputs : List (ℤ × Option Verdict)

pub data Load : Type 0 where
  loaded : Details → Load
  load_failed : Str → Load
  load_aborted : Load

pub record StepRecord : Type 0 where
  pub seq : ℕ
  pub node_id : Str
  pub plugin_id : Str
  pub plugin_name : Str
  pub output_number : Option ℤ
  pub output_outcome : Option Verdict
  pub duration_ms : ℕ
  pub log_excerpt : Str
  pub error : Option Str

pub data StopReason : Type 0 where
  end_of_flow plugin_error step_budget missing_node no_start_node held_for_review : StopReason

pub record FlowError : Type 0 where
  pub node_id : Str
  pub plugin_id : Str
  pub plugin_name : Str
  pub message : Str

-- The run's variables; `rest` is what a run only passes on.
pub record Variables (V : Type 0) : Type 0 where
  pub rest : V
  pub flow_failed : Bool
  pub flow_error : Option FlowError
  pub flow_error_outcome : Option Verdict

pub data RunError : Type 0 where
  text : Str → RunError
  failed_to_load : List (Str × Str × Str) → RunError
  no_start : RunError
  over_budget : ℕ → RunError
  points_at : Str → Str → RunError
  no_recovery : RunError

pub record FlowRunResult (V : Type 0) : Type 0 where
  pub steps : List StepRecord
  pub variables : Variables V
  pub current_path : Str
  pub failed : Bool
  pub stop_reason : StopReason
  pub error : Option RunError
  pub review_reason : Option Str

-- What a plugin that was called did.
pub data Answer (V : Type 0) : Type 0 where
  returned : ℤ → Option Str → Option (Variables V) → Answer V
  no_output : Answer V
  hold : Str → Answer V
  threw : Str → Answer V
  aborted : Answer V

pub data Call (V : Type 0) : Type 0 where
  no_args : Call V
  called : List Str → Answer V → Call V

pub record Host (V : Type 0) : Type 0 where
  pub load_plugin : ℕ → FlowNode → Load
  pub call_plugin : ℕ → FlowNode → Details → Str → Variables V → Call V
  pub step_duration : ℕ → ℕ

pub record Options : Type 0 where
  pub flow : FlowDefinition
  pub initial_path : Str
  pub start_node_id : Option Str
  pub max_steps : ℕ
  pub route_load_errors : Bool

abbrev pub default_max_steps : ℕ
default_max_steps = 500

-- The cache of loaded plugins, and how often the loader was called.
pub record Loads : Type 0 where
  pub loaded_by_node_id : List (Str × Details)
  pub loader_calls : ℕ

pub record State (V : Type 0) : Type 0 where
  pub steps : List StepRecord
  pub variables : Variables V
  pub current_path : Str
  pub error_handler_used : Bool
  pub loads : Loads

pub data Run (V : Type 0) : Type 0 where
  finished : FlowRunResult V → Run V
  rejected : List StepRecord → Run V

pub data Next (V : Type 0) : Type 0 where
  stop : Run V → Next V
  go : State V → FlowNode → Next V

pub data Search : Type 0 where
  found : FlowNode → Search
  missing : List (Str × Str × Str) → Search
  search_aborted : Search

abbrev pub same_id : Str → FlowNode → Bool
same_id id n = str_eq n.id id

-- `nodesById.get(id)`: of two nodes with an id the later one.
unfoldable pub node_by_id : List FlowNode → Str → Option FlowNode
node_by_id [] id = none
node_by_id (n ∷ ns) id = elim (node_by_id ns id) [
  | some m ↦ some m
  | none ↦ if same_id id n then some n else none
]

abbrev pub cached : List (Str × Details) → Str → Option Details
cached [] id = none
cached ((k, d) ∷ ds) id = if str_eq k id then some d else cached ds id

abbrev verdict_of : List (ℤ × Option Verdict) → ℤ → Option Verdict
verdict_of [] n = none
verdict_of ((k, v) ∷ outputs) n = if int_eq k n then v else verdict_of outputs n

-- `outputOutcome` of a step.
abbrev pub output_outcome_of : Details → Option ℤ → Option Verdict
output_outcome_of d none = none
output_outcome_of d (some n) = verdict_of d.outputs n

abbrev pub is_failure : Option Verdict → Bool
is_failure (some failure) = true
is_failure (some success) = false
is_failure none = false

abbrev join_lines : List Str → Str
join_lines [] = []
join_lines (l ∷ []) = l
join_lines (l ∷ l' ∷ ls) = l ++ 10 ∷ join_lines (l' ∷ ls)

-- `a || b` on texts.
abbrev or_text : Str → Str → Str
or_text [] b = b
or_text (c ∷ a) b = c ∷ a

abbrev in_quotes : Str → Str
in_quotes s = 34 ∷ s ++ 34 ∷ []

abbrev reported_failure : Details → Option ℤ → Str
reported_failure d none = in_quotes d.name ++ codes " reported failure on output null."
reported_failure d (some n) =
    in_quotes d.name ++ codes " reported failure on output " ++ int_text n ++ codes "."

abbrev no_output_error : Details → Str
no_output_error d =
    codes "Plugin "
    ++ in_quotes d.name
    ++ codes " did not return an outputNumber. A flow plugin must return "
    ++ codes "{ outputNumber, outputFileObj, variables }."

abbrev first_error : Option FlowError → FlowError → Option FlowError
first_error (some e) e' = some e
first_error none e' = some e'

-- A failure is noted; the first one is kept.
abbrev pub note_failure : {V : Type 0} → FlowNode → Str → Str → Variables V → Variables V
note_failure n name message v = record {
  rest = v.rest;
  flow_failed = true;
  flow_error =
      first_error v.flow_error
        (record { node_id = n.id; plugin_id = n.plugin_id; plugin_name = name; message = message });
  flow_error_outcome = v.flow_error_outcome;
}

abbrev pub is_end : StopReason → Bool
is_end end_of_flow = true
is_end plugin_error = false
is_end step_budget = false
is_end missing_node = false
is_end no_start_node = false
is_end held_for_review = false

-- The node of the step, with its plugin.
pub record Place : Type 0 where
  pub node : FlowNode
  pub plugin : Details

module _ {V : Type 0} (host : Host V) where
  -- `loadPluginOnce`
  unfoldable pub load_plugin_once : Loads → FlowNode → Load × Loads
  load_plugin_once l n = elim (cached l.loaded_by_node_id n.id) [
    | some d ↦ (loaded d, l)
    | none ↦ elim (host.load_plugin l.loader_calls n) [
      | loaded d ↦ (
        loaded d,
        record {
          loaded_by_node_id = (n.id, d) ∷ l.loaded_by_node_id;
          loader_calls = suc l.loader_calls;
        },
      )
      | load_failed message ↦ (
        load_failed message,
        record { loaded_by_node_id = l.loaded_by_node_id; loader_calls = suc l.loader_calls },
      )
      | load_aborted ↦ (load_aborted, l)
    ]
  ]

  -- The first node whose plugin loads and passes the test; the failures to load on the way.
  unfoldable pub find_plugin :
      (Details → Bool) → List (Str × Str × Str) → Loads → List FlowNode → Search × Loads
  unfolding load_plugin_once
  find_plugin test failures l [] = (missing failures, l)
  find_plugin test failures l (n ∷ ns) =
      let l' = (load_plugin_once l n).1 in
      let next = find_plugin test failures l' ns in
      let failed : Str → Search × Loads =
        λ message. find_plugin test (failures ++ (n.id, n.plugin_id, message) ∷ []) l' ns in
      elim (load_plugin_once l n).0 [
        | loaded d ↦ if test d then (found n, l') else next
        | load_failed message ↦ failed message
        | load_aborted ↦ (search_aborted, l')
      ]

  module _ (options : Options) where
    unfoldable pub find_start_node : Loads → Search × Loads
    unfolding find_plugin node_by_id
    find_start_node l = elim options.start_node_id [
      | some id ↦ elim (node_by_id options.flow.nodes id) [
        | some n ↦ (found n, l)
        | none ↦ (missing [], l)
      ]
      | none ↦ find_plugin (λ d. d.is_start_plugin) [] l options.flow.nodes
    ]

    unfoldable pub find_error_handler : Loads → Search × Loads
    unfolding find_plugin
    find_error_handler l = find_plugin (λ d. d.is_error_handler) [] l options.flow.nodes

    unfoldable pub finish : State V → StopReason → Option RunError → Option Str → Run V
    finish s reason error review =
        let unrecovered = is_end reason && is_failure s.variables.flow_error_outcome in
        finished (record {
          steps = s.steps;
          variables = s.variables;
          current_path = s.current_path;
          failed = not (is_end reason) || is_failure s.variables.flow_error_outcome;
          stop_reason = reason;
          error = elim error [
            | some e ↦ some e
            | none ↦
                if unrecovered
                then elim s.variables.flow_error [
                  | some e ↦ some (text e.message)
                  | none ↦ some no_recovery
                ]
                else none
          ];
          review_reason = review;
        })

    abbrev pub enter_found : State V → FlowNode → Run V → Search → Loads → Next V
    enter_found s n otherwise (found h) l =
        if str_eq h.id n.id
        then stop otherwise
        else go
            (record {
              steps = s.steps;
              variables = s.variables;
              current_path = s.current_path;
              error_handler_used = true;
              loads = l;
            })
            h
    enter_found s n otherwise (missing failures) l = stop otherwise
    enter_found s n otherwise search_aborted l = stop (rejected s.steps)

    -- On to the error handler, if it was not entered yet and there is one that is another node;
    -- otherwise the run ends as given.
    unfoldable pub enter_handler : State V → FlowNode → Run V → Next V
    unfolding find_error_handler
    enter_handler s n otherwise =
        if s.error_handler_used
        then stop otherwise
        else enter_found s n otherwise (find_error_handler s.loads).0 (find_error_handler s.loads).1

    -- The plugin of the current node does not load.
    abbrev pub load_error_step : State V → FlowNode → Str → StepRecord
    load_error_step s n message = record {
      seq = suc (length s.steps);
      node_id = n.id;
      plugin_id = n.plugin_id;
      plugin_name = n.plugin_id;
      output_number = none;
      output_outcome = none;
      duration_ms = host.step_duration (suc (length s.steps));
      log_excerpt = [];
      error = some message;
    }

    abbrev pub after_load_error : State V → FlowNode → Str → State V
    after_load_error s n message = record {
      steps = s.steps ++ load_error_step s n message ∷ [];
      variables = note_failure n n.plugin_id message s.variables;
      current_path = s.current_path;
      error_handler_used = s.error_handler_used;
      loads = s.loads;
    }

    unfoldable pub load_error : State V → FlowNode → Str → Next V
    unfolding enter_handler finish
    load_error s n message =
        let s' = after_load_error s n message in
        if options.route_load_errors
        then enter_handler s' n (finish s' plugin_error (some (text message)) none)
        else stop (finish s' plugin_error (some (text message)) none)

    abbrev pub leaves_by : Str → Option ℤ → FlowEdge → Bool
    leaves_by id none e = false
    leaves_by id (some output) e = str_eq e.from_node_id id && int_eq e.output_number output

    abbrev pub go_to : State V → FlowNode → FlowEdge → Option FlowNode → Next V
    unfolding finish
    go_to s n e none = stop (finish s missing_node (some (points_at n.id e.to_node_id)) none)
    go_to s n e (some next) = go s next

    abbrev pub go_along : State V → FlowNode → Option Verdict → Option FlowEdge → Next V
    unfolding enter_handler finish node_by_id
    go_along s n outcome none =
        if is_failure outcome
        then enter_handler s n (finish s end_of_flow none none)
        else stop (finish s end_of_flow none none)
    go_along s n outcome (some e) = go_to s n e (node_by_id options.flow.nodes e.to_node_id)

    -- Along the edge of the output that was taken.
    unfoldable pub follow_edge : State V → FlowNode → Option ℤ → Option Verdict → Next V
    unfolding go_along
    follow_edge s n output outcome =
        go_along s n outcome (find (leaves_by n.id output) options.flow.edges)

    -- What is recorded of a step whose plugin was called.
    abbrev pub called_step : State V → Place → List Str → Option ℤ → Option Str → StepRecord
    called_step s p log output error = record {
      seq = suc (length s.steps);
      node_id = p.node.id;
      plugin_id = p.node.plugin_id;
      plugin_name = p.plugin.name;
      output_number = output;
      output_outcome = output_outcome_of p.plugin output;
      duration_ms = host.step_duration (suc (length s.steps));
      log_excerpt = join_lines log;
      error = error;
    }

    abbrev pub record_step :
        State V
        → Place
        → List Str
        → Option ℤ
        → Option Str
        → Option (Variables V)
        → Option Str
        → State V
    record_step s p log output path variables error = record {
      steps = s.steps ++ called_step s p log output error ∷ [];
      variables = elim variables [ some v ↦ v | none ↦ s.variables ];
      current_path = elim path [
        | none ↦ s.current_path
        | some [] ↦ s.current_path
        | some (c ∷ s) ↦ c ∷ s
      ];
      error_handler_used = s.error_handler_used;
      loads = s.loads;
    }

    abbrev pub with_failure : State V → FlowNode → Str → Str → State V
    with_failure s n name message = record {
      steps = s.steps;
      variables = note_failure n name message s.variables;
      current_path = s.current_path;
      error_handler_used = s.error_handler_used;
      loads = s.loads;
    }

    abbrev pub failed_call : State V → Place → List Str → Str → Next V
    unfolding enter_handler finish
    failed_call s p log message =
        let s' =
          with_failure (record_step s p log none none none (some message)) p.node p.plugin.name
            message in
        enter_handler s' p.node (finish s' plugin_error (some (text message)) none)

    -- What follows the call of a plugin.
    unfoldable pub settle : State V → Place → List Str → Answer V → Next V
    unfolding failed_call follow_edge finish
    settle s p log aborted = stop (rejected s.steps)
    settle s p log (hold reason) =
        stop (finish (record_step s p log none none none none) held_for_review none (some reason))
    settle s p log (threw message) = failed_call s p log message
    settle s p log no_output = failed_call s p log (no_output_error p.plugin)
    settle s p log (returned output path variables) =
        let s' = record_step s p log (some output) path variables none in
        let outcome = output_outcome_of p.plugin (some output) in
        follow_edge
          (if is_failure outcome
            then with_failure s' p.node p.plugin.name
                (or_text (trim (join_lines log)) (reported_failure p.plugin (some output)))
            else s')
          p.node (some output) outcome

    abbrev pub with_loads : State V → Loads → State V
    with_loads s l = record {
      steps = s.steps;
      variables = s.variables;
      current_path = s.current_path;
      error_handler_used = s.error_handler_used;
      loads = l;
    }

    abbrev pub after_call : State V → Place → Call V → Next V
    unfolding settle
    after_call s p no_args = stop (rejected s.steps)
    after_call s p (called log answer) = settle s p log answer

    abbrev pub after_load : State V → FlowNode → Load → Next V
    unfolding load_error after_call
    after_load s n load_aborted = stop (rejected s.steps)
    after_load s n (load_failed message) = load_error s n message
    after_load s n (loaded d) =
        after_call s (record { node = n; plugin = d })
          (host.call_plugin (suc (length s.steps)) n d s.current_path s.variables)

    -- One round of the loop, within the budget.
    unfoldable pub take_step : State V → FlowNode → Next V
    unfolding load_plugin_once after_load
    take_step s n =
        after_load (with_loads s (load_plugin_once s.loads n).1) n (load_plugin_once s.loads n).0

    abbrev pub continue : (State V → FlowNode → Option (Run V)) → Next V → Option (Run V)
    continue rest (stop r) = some r
    continue rest (go s n) = rest s n

    -- The loop; `none` without fuel.
    unfoldable pub run_loop : ℕ → State V → FlowNode → Option (Run V)
    unfolding take_step finish
    run_loop zero s n = none
    run_loop (suc fuel) s n =
        let rest : State V → FlowNode → Option (Run V) = λ s' n'. run_loop fuel s' n' in
        if leb options.max_steps (length s.steps)
        then some (finish s step_budget (some (over_budget options.max_steps)) none)
        else continue rest (take_step s n)

    abbrev pub begin : Variables V → Loads → State V
    begin variables l = record {
      steps = [];
      variables = variables;
      current_path = options.initial_path;
      error_handler_used = false;
      loads = l;
    }

    abbrev pub start_at : State V → Search → Option (Run V)
    unfolding run_loop finish
    start_at s (found n) = run_loop (suc options.max_steps) s n
    start_at s (missing []) = some (finish s no_start_node (some no_start) none)
    start_at s (missing (f ∷ fs)) =
        some (finish s no_start_node (some (failed_to_load (f ∷ fs))) none)
    start_at s search_aborted = some (rejected [])

    abbrev pub first_variables : V → Variables V
    first_variables rest = record {
      rest = rest;
      flow_failed = false;
      flow_error = none;
      flow_error_outcome = none;
    }

    abbrev pub no_loads : Loads
    no_loads = record { loaded_by_node_id = []; loader_calls = 0 }

    -- `rest` is what the variables of a run start with, beside the flags of a failure.
    unfoldable pub run_flow : V → Option (Run V)
    unfolding find_start_node start_at
    run_flow rest =
        start_at (begin (first_variables rest) (find_start_node no_loads).1)
          (find_start_node no_loads).0
