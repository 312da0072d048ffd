-- ===== src/Flow/Run/Outcome.antt =====
-- What holds of every run of a flow.
use trawlarr.Prelude.{
  ℕ, zero, suc, ◌+◌, ◌≤◌, ◌<◌, ◌≡◌, ◌≢◌, refl, sym, ap, subst, ◌∙◌, ◌⊎◌, inl, inr, Bool, true,
  false, Option, none, some, List, [], ◌∷◌, ◌++◌, Str, leb, ℤ, length, length-append, find, arith,
  Memᴰ, All-mem, str_eq_refl, Bool-cases, Option-cases,
}
use trawlarr.Flow.{FlowNode, FlowEdge}
use trawlarr.Flow.Run.{
  StepRecord, end_of_flow, missing_node, FlowRunResult, Host, Options, Loads, State, Run, finished,
  rejected, Next, stop, go, Search, found, missing, same_id, search_aborted, node_by_id, leaves_by,
  finish, continue, run_loop, begin, start_at, first_variables, no_loads, run_flow,
}
use trawlarr.Flow.Validate.{Resolver, validate_flow_definition}
use trawlarr.Flow.Validate.Accepted.{IsNodeId, accepted-IsWellFormed}
use trawlarr.Flow.Run.Loading.{IsSound, IsHandler, IsStartOf, Starts, find_start_node-Starts}
use trawlarr.Flow.Run.Progress.{Linked, Progress, take_step-Progress}

-- `Walk host options used steps id`: the steps lead from the start of the run to the node `id`. Each
-- goes along an edge of the output that it took, but for one, if `used`: after it the run enters a
-- node whose plugin is an error handler.
pub data Walk {V : Type 0} (host : Host V) (options : Options)
    : Bool → List StepRecord → Str → Type 0 where
  at_start : {id : Str} → IsStartOf host options id → Walk host options false [] id
  along :
      {used : Bool} {steps : List StepRecord} (x : StepRecord) {id : Str}
      → Walk host options used steps x.node_id
      → Linked options.flow.edges x id
      → Walk host options used (steps ++ x ∷ []) id
  to_handler :
      {steps : List StepRecord} (x : StepRecord) {id : Str}
      → Walk host options false steps x.node_id
      → IsHandler host options id
      → Walk host options true (steps ++ x ∷ []) id

-- The steps of a run that is over: none, as many as lead to a node, or with a last step at one.
pub data Trail {V : Type 0} (host : Host V) (options : Options) : List StepRecord → Type 0 where
  no_steps : Trail host options []
  before_step :
      {used : Bool} {steps : List StepRecord} {id : Str}
      → Walk host options used steps id
      → Trail host options steps
  after_step :
      {used : Bool} {steps : List StepRecord} (x : StepRecord)
      → Walk host options used steps x.node_id
      → Trail host options (steps ++ x ∷ [])

abbrev pub steps_of : {V : Type 0} → Run V → List StepRecord
steps_of (finished r) = r.steps
steps_of (rejected steps) = steps

-- One step more, as a round records it.
along-Walk :
    {V : Type 0} (host : Host V) (options : Options) {used used' : Bool}
    {steps steps' : List StepRecord} {at id : Str} (x : StepRecord)
    → Walk host options used steps at
    → x.node_id ≡ at
    → steps' ≡ steps ++ x ∷ []
    → ((used' ≡ used) × Linked options.flow.edges x id)
      ⊎ ((used ≡ false) × (used' ≡ true) × IsHandler host options id)
    → Walk host options used' steps' id
along-Walk host options {used} {used'} {steps} {steps'} x w e s (inl (u, linked)) =
    rw (s, u) (along x (subst (Walk host options used steps) (sym e) w) linked)
along-Walk host options {used} {used'} {steps} {steps'} {at} x w e s (inr (u, u', h)) =
    rw (s, u')
      (to_handler x
        (subst (Walk host options false steps) (sym e)
          (subst (λ v. Walk host options v steps at) u w))
        h)

after-Trail :
    {V : Type 0} (host : Host V) (options : Options) {used : Bool} {steps steps' : List StepRecord}
    {at : Str} (x : StepRecord)
    → Walk host options used steps at
    → x.node_id ≡ at
    → steps' ≡ steps ++ x ∷ []
    → Trail host options steps'
after-Trail host options {used} {steps} x w e s =
    rw s (after_step x (subst (Walk host options used steps) (sym e) w))

node_by_id-found :
    (nodes : List FlowNode) (id : Str) → IsNodeId nodes id → node_by_id nodes id ≢ none
unfolding node_by_id
node_by_id-found [] id (n, m, e) h = elim m [ ]
node_by_id-found (k ∷ nodes) id (n, m, e) h = elim (Option-cases (node_by_id nodes id)) [
  | inr (n', f) ↦ cc (rw (f, node_by_id) at h)
  | inl f ↦ elim m [
    | Memᴰ.head s ↦
        let same : same_id id k ≡ true = rw (← s, e) (str_eq_refl id) in
        cc (rw (f, same, node_by_id) at h)
    | Memᴰ.tail m' ↦ node_by_id-found nodes id (n, m', e) f
  ]
]

module _ {V : Type 0} (host : Host V) (options : Options) where
  -- A run that ended in order, or at a missing node, says why by its last step.
  abbrev pub EndsWell : Run V → Type 0
  EndsWell (rejected steps) = Unit
  EndsWell (finished r) =
      (r.stop_reason ≡ end_of_flow
        → (x : StepRecord) × (before : List StepRecord) × (r.steps ≡ before ++ x ∷ [])
          × (x.error ≡ none)
          × (output : ℤ) × (x.output_number ≡ some output)
          × (find (leaves_by host options x.node_id (some output)) options.flow.edges ≡ none))
      × (r.stop_reason ≡ missing_node
          → (e : FlowEdge) × Memᴰ e options.flow.edges
            × (node_by_id options.flow.nodes e.to_node_id ≡ none))

  abbrev pub IsOutcome : Run V → Type 0
  IsOutcome r =
      Trail host options (steps_of r) × (length (steps_of r) ≤ options.max_steps) × EndsWell r

  length-snoc :
      (steps : List StepRecord) (x : StepRecord) → length (steps ++ x ∷ []) ≡ suc (length steps)
  length-snoc steps x = omega (arith, length-append steps (x ∷ []))

  abbrev Ends : Option (Run V) → Type 0
  Ends result = (r : Run V) × (result ≡ some r) × IsOutcome r

  -- What is left of a run, if this is true of the rounds to come.
  continue-Ends :
      (rest : State V → FlowNode → Option (Run V)) (s : State V) (n : FlowNode) (next : Next V)
      → ((s' : State V) (n' : FlowNode)
          → Walk host options s'.error_handler_used s'.steps n'.id
          → IsSound host s'.loads
          → length s'.steps ≡ suc (length s.steps)
          → Ends (rest s' n'))
      → Walk host options s.error_handler_used s.steps n.id
      → length s.steps < options.max_steps
      → Progress host options s n next
      → Ends (continue host options rest next)
  continue-Ends rest s n next ih w b (inl e) =
      rw e (rejected s.steps, refl, (before_step w, omega arith, tt))
  continue-Ends rest s n (stop (finished r)) ih w b (inr (x, at, (same, ends))) = (
    finished r,
    refl,
    (
      after-Trail host options x w at same,
      omega (arith, ap length same, length-snoc s.steps x),
      (λ e. let (c, output, o, h) = ends.0 e in (x, s.steps, same, c, output, o, h), ends.1),
    ),
  )
  continue-Ends rest s n (stop (rejected steps)) ih w b (inr (x, at, same)) = (
    rejected steps,
    refl,
    (
      after-Trail host options x w at same,
      omega (arith, ap length same, length-snoc s.steps x),
      tt,
    ),
  )
  continue-Ends rest s n (go s' n') ih w b (inr (x, at, (same, sound, how))) =
      ih s' n' (along-Walk host options x w at same how) sound
        (ap length same ∙ length-snoc s.steps x)

  run_loop-Ends :
      (fuel : ℕ) (s : State V) (n : FlowNode)
      → Walk host options s.error_handler_used s.steps n.id
      → IsSound host s.loads
      → length s.steps ≤ options.max_steps
      → options.max_steps < fuel + length s.steps
      → Ends (run_loop host options fuel s n)
  unfolding run_loop finish
  run_loop-Ends zero s n w sound b f = absurd (omega arith)
  run_loop-Ends (suc fuel) s n w sound b f =
      elim (Bool-cases (leb options.max_steps (length s.steps))) [
        | inl t ↦ rw (t) (_, refl, (before_step w, b, (λ r. cc, λ r. cc)))
        | inr g ↦ rw (g) (
            continue-Ends (run_loop host options fuel) s n _
              (λ s' n' w' sound' l.
                run_loop-Ends fuel s' n' w' sound' (ground arith) (ground arith))
              w (ground arith) (take_step-Progress host options s n sound))
      ]

  start_at-Ends :
      (rest : V) (l : Loads) (f : Search)
      → IsSound host l
      → Starts host options f
      → Ends (start_at host options (begin host options (first_variables host options rest) l) f)
  unfolding start_at finish
  start_at-Ends rest l (found n) sound start =
      run_loop-Ends (suc options.max_steps) _ n (at_start start) sound (omega arith) (omega arith)
  start_at-Ends rest l (missing []) sound start =
      (_, refl, (no_steps, omega arith, (λ r. cc, λ r. cc)))
  start_at-Ends rest l (missing (f ∷ fs)) sound start =
      (_, refl, (no_steps, omega arith, (λ r. cc, λ r. cc)))
  start_at-Ends rest l search_aborted sound start = (rejected [], refl, (no_steps, omega arith, tt))

  run_flow-Ends : (rest : V) → Ends (run_flow host options rest)
  unfolding run_flow
  run_flow-Ends rest =
      let (sound, starts) = find_start_node-Starts host options (no_loads host options) tt in
      start_at-Ends rest _ _ sound starts

  run_flow-IsOutcome : (rest : V) {r : Run V} → run_flow host options rest ≡ some r → IsOutcome r
  run_flow-IsOutcome rest {r} e =
      let (r', e', h) = run_flow-Ends rest in
      let same : r' ≡ r = cc (e, e') in subst IsOutcome same h

  -- Every run is over, whatever the plugins do, after at most `max_steps` recorded steps.
  pub run_flow_terminates :
      (rest : V)
      → (r : Run V) × (run_flow host options rest ≡ some r)
        × (length (steps_of r) ≤ options.max_steps)
  run_flow_terminates rest = let (r, e, h) = run_flow-Ends rest in (r, e, h.1)

  -- The steps of a run, of one that is rejected also: the first is at the node that the options name
  -- as the start, or if they name none at a node whose plugin is a start plugin; each but the last is
  -- followed by a step at the node to which an edge of the flow leads by the output that it took, with
  -- at most one exception, after which the step is at a node whose plugin is an error handler.
  pub run_flow-Trail :
      (rest : V) (r : Run V) → run_flow host options rest ≡ some r → Trail host options (steps_of r)
  run_flow-Trail rest r e = (run_flow-IsOutcome rest e).0

  -- A run that stops at the end of the flow has a last step, which has no error and took an output
  -- with no edge in the flow.
  pub end_of_flow_last :
      (rest : V) (r : FlowRunResult V)
      → run_flow host options rest ≡ some (finished r)
      → r.stop_reason ≡ end_of_flow
      → (x : StepRecord) × (before : List StepRecord) × (r.steps ≡ before ++ x ∷ [])
        × (x.error ≡ none)
        × (output : ℤ) × (x.output_number ≡ some output)
        × (find (leaves_by host options x.node_id (some output)) options.flow.edges ≡ none)
  end_of_flow_last rest r e h = (run_flow-IsOutcome rest e).2.0 h

  -- A run of a flow that the validation accepts never stops at a missing node.
  pub accepted_never_missing :
      (resolver : Option Resolver) (rest : V) (r : FlowRunResult V)
      → validate_flow_definition options.flow resolver ≡ []
      → run_flow host options rest ≡ some (finished r)
      → r.stop_reason ≢ missing_node
  accepted_never_missing resolver rest r ok e m =
      let (edge, known, none_found) = (run_flow-IsOutcome rest e).2.1 m in
      let ends =
        All-mem _ options.flow.edges (accepted-IsWellFormed options.flow resolver ok).known_ends
          known in
      node_by_id-found options.flow.nodes edge.to_node_id ends.1 none_found
