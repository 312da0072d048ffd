-- ===== src/Flow/Run/Progress.antt =====
-- The steps of a run: where each leads, and how many there are.
use trawlarr.Prelude.{
  ◌≡◌, refl, sym, ap, ◌∙◌, ◌⊎◌, inl, inr, Bool, true, false, Option, none, some, List, [], ◌∷◌,
  ◌++◌, Str, str_eq, str_eq_sound, if◌then◌else◌, ℤ, find, find-some, arith, Memᴰ, Bool-cases,
  int_eq_sound,
}
use trawlarr.Flow.{FlowNode, FlowEdge}
use trawlarr.Flow.Run.{
  Verdict, Load, loaded, load_failed, load_aborted, StepRecord, StopReason, end_of_flow,
  plugin_error, missing_node, FlowRunResult, Answer, returned, no_output, hold, threw, aborted,
  Call, no_args, called, Host, Options, Loads, State, finished, rejected, Next, stop, go, Search,
  found, missing, search_aborted, node_by_id, output_outcome_of, is_failure, Place,
  find_error_handler, finish, enter_found, enter_handler, load_error, leaves_by, go_to, go_along,
  follow_edge, record_step, with_failure, failed_call, called_step, load_error_step,
  after_load_error, settle, with_loads, after_call, after_load, take_step,
}
use trawlarr.Flow.Run.Loading.{
  IsSound, Found, IsHandler, IsMatch-HasPlugin, load_plugin_once-IsSound, find_error_handler-Found,
  node_by_id-some,
}

-- `x` took the output of an edge that leads to `id`.
abbrev pub Linked : List FlowEdge → StepRecord → Str → Type 0
Linked edges x id =
    (e : FlowEdge) × Memᴰ e edges
    × (e.from_node_id ≡ x.node_id)
    × (x.output_number ≡ some e.output_number)
    × (e.to_node_id ≡ id)

-- What holds of both branches holds of the conditional.
if_both {ℓ κ} :
    {A : Type ℓ} (P : A → Type κ) (b : Bool) {x y : A} → P x → P y → P (if b then x else y)
if_both P true p q = p
if_both P false p q = q

module _ {V : Type 0} (host : Host V) (options : Options) where
  -- How a run may end after the step `x`.
  abbrev pub EndsAfter : StepRecord → StopReason → Type 0
  EndsAfter x reason =
      (reason ≡ end_of_flow
        → (x.error ≡ none)
          × (output : ℤ) × (x.output_number ≡ some output)
          × (find (leaves_by host options x.node_id (some output)) options.flow.edges ≡ none))
      × (reason ≡ missing_node
          → (e : FlowEdge) × Memᴰ e options.flow.edges
            × (node_by_id options.flow.nodes e.to_node_id ≡ none))

  abbrev pub After : StepRecord → List StepRecord → Bool → Next V → Type 0
  After x steps used (stop (finished r)) = (r.steps ≡ steps) × EndsAfter x r.stop_reason
  After x steps used (stop (rejected done)) = done ≡ steps
  After x steps used (go s n) =
      (s.steps ≡ steps)
      × IsSound host s.loads
      × (((s.error_handler_used ≡ used) × Linked options.flow.edges x n.id)
          ⊎ ((used ≡ false) × (s.error_handler_used ≡ true) × IsHandler host options n.id))

  enter_found-After :
      (x : StepRecord) (s : State V) (n : FlowNode) (r : FlowRunResult V) (f : Search) (l : Loads)
      → Found host (λ d. d.is_error_handler) options.flow.nodes (f, l)
      → r.steps ≡ s.steps
      → EndsAfter x r.stop_reason
      → s.error_handler_used ≡ false
      → After x s.steps s.error_handler_used (enter_found host options s n (finished r) f l)
  enter_found-After x s n r (found h) l (sound, m) e k u = elim (Bool-cases (str_eq h.id n.id)) [
    | inl t ↦ rw t (e, k)
    | inr f ↦ rw f (
      refl,
      sound,
      inr (u, refl, IsMatch-HasPlugin host (λ d. d.is_error_handler) options.flow.nodes h m),
    )
  ]
  enter_found-After x s n r (missing fs) l m e k u = (e, k)
  enter_found-After x s n r search_aborted l m e k u = refl

  enter_handler-After :
      (x : StepRecord) (s : State V) (n : FlowNode) (r : FlowRunResult V)
      → IsSound host s.loads
      → r.steps ≡ s.steps
      → EndsAfter x r.stop_reason
      → After x s.steps s.error_handler_used (enter_handler host options s n (finished r))
  unfolding enter_handler
  enter_handler-After x s n r sound e k = by_flag s.error_handler_used refl
    where
      by_flag :
          (used : Bool)
          → s.error_handler_used ≡ used
          → After x s.steps s.error_handler_used (
              if used
              then stop (finished r)
              else enter_found host options s n
                  (finished r)
                  (find_error_handler host options s.loads).0
                  (find_error_handler host options s.loads).1)
      by_flag true u = (e, k)
      by_flag false u =
          enter_found-After x s n r _ _ (find_error_handler-Found host options s.loads sound) e k u

  go_to-After :
      (x : StepRecord) (s : State V) (n : FlowNode) (e : FlowEdge) (next : Option FlowNode)
      → IsSound host s.loads
      → Memᴰ e options.flow.edges
      → (e.from_node_id ≡ x.node_id)
      → (x.output_number ≡ some e.output_number)
      → node_by_id options.flow.nodes e.to_node_id ≡ next
      → After x s.steps s.error_handler_used (go_to host options s n e next)
  unfolding finish
  go_to-After x s n e none sound m p q h = (refl, (λ r. cc, λ r. (e, m, h)))
  go_to-After x s n e (some next) sound m p q h = (
    refl,
    sound,
    inl (refl, (e, m, p, q, sym (node_by_id-some options.flow.nodes e.to_node_id h))),
  )

  go_along-After :
      (x : StepRecord) (s : State V) (n : FlowNode) (outcome : Option Verdict) (output : ℤ)
      (e : Option FlowEdge)
      → IsSound host s.loads
      → x.error ≡ none
      → x.node_id ≡ n.id
      → x.output_number ≡ some output
      → find (leaves_by host options n.id (some output)) options.flow.edges ≡ e
      → After x s.steps s.error_handler_used (go_along host options s n outcome e)
  unfolding finish go_along
  go_along-After x s n outcome output none sound c i o h =
      let ends : EndsAfter x end_of_flow = (λ r. (c, output, o, rw i h), λ r. cc) in
      elim (Bool-cases (is_failure outcome)) [
        | inl t ↦ rw t (enter_handler-After x s n _ sound refl ends)
        | inr f ↦ rw f (refl, ends)
      ]
  go_along-After x s n outcome output (some e) sound c i o h =
      let (t, m) = find-some _ options.flow.edges h in
      let from : e.from_node_id ≡ n.id = str_eq_sound e.from_node_id n.id (ground arith) in
      let out : e.output_number ≡ output = int_eq_sound e.output_number output (ground arith) in
      go_to-After x s n e _ sound m (from ∙ sym i) (o ∙ ap some (sym out)) refl

  -- What a round does: nothing is recorded of a run that is rejected at once, else one step.
  abbrev pub Progress : State V → FlowNode → Next V → Type 0
  Progress s n next =
      (next ≡ stop (rejected s.steps))
      ⊎ ((x : StepRecord) × (x.node_id ≡ n.id)
          × After x (s.steps ++ x ∷ []) s.error_handler_used next)

  load_error-Progress :
      (s : State V) (n : FlowNode) (message : Str)
      → IsSound host s.loads
      → Progress s n (load_error host options s n message)
  unfolding load_error finish
  load_error-Progress s n message sound =
      let x = load_error_step host options s n message in
      let s' = after_load_error host options s n message in
      let ends : EndsAfter x plugin_error = (λ r. cc, λ r. cc) in
      inr (
        x,
        refl,
        if_both (After x (s.steps ++ x ∷ []) s.error_handler_used) options.route_load_errors
            (enter_handler-After x s' n _ sound refl ends) (refl, ends),
      )

  failed_call-Progress :
      (s : State V) (p : Place) (log : List Str) (message : Str)
      → IsSound host s.loads
      → Progress s p.node (failed_call host options s p log message)
  unfolding failed_call finish
  failed_call-Progress s p log message sound =
      let x = called_step host options s p log none (some message) in
      let s' =
        with_failure host options (record_step host options s p log none none none (some message))
          p.node p.plugin.name message in
      inr (x, refl, enter_handler-After x s' p.node _ sound refl (λ r. cc, λ r. cc))

  settle-Progress :
      (s : State V) (p : Place) (log : List Str) (answer : Answer V)
      → IsSound host s.loads
      → Progress s p.node (settle host options s p log answer)
  unfolding settle finish follow_edge
  settle-Progress s p log aborted sound = inl refl
  settle-Progress s p log (hold reason) sound =
      inr (called_step host options s p log none none, refl, (refl, (λ r. cc, λ r. cc)))
  settle-Progress s p log (threw message) sound = failed_call-Progress s p log message sound
  settle-Progress s p log no_output sound = failed_call-Progress s p log _ sound
  settle-Progress s p log (returned output path variables) sound =
      let x = called_step host options s p log (some output) none in
      let outcome = output_outcome_of p.plugin (some output) in
      inr (
        x,
        refl,
        if_both
            (λ s'.
              After x (s.steps ++ x ∷ []) s.error_handler_used
                (follow_edge host options s' p.node (some output) outcome))
            (is_failure outcome)
            (go_along-After x _ p.node outcome output _ sound refl refl refl refl)
            (go_along-After x _ p.node outcome output _ sound refl refl refl refl),
      )

  after_call-Progress :
      (s : State V) (p : Place) (c : Call V)
      → IsSound host s.loads
      → Progress s p.node (after_call host options s p c)
  unfolding after_call
  after_call-Progress s p no_args sound = inl refl
  after_call-Progress s p (called log answer) sound = settle-Progress s p log answer sound

  after_load-Progress :
      (s : State V) (n : FlowNode) (l : Load)
      → IsSound host s.loads
      → Progress s n (after_load host options s n l)
  unfolding after_load after_call
  after_load-Progress s n load_aborted sound = inl refl
  after_load-Progress s n (load_failed message) sound = load_error-Progress s n message sound
  after_load-Progress s n (loaded d) sound =
      after_call-Progress s (record { node = n; plugin = d }) _ sound

  pub take_step-Progress :
      (s : State V) (n : FlowNode)
      → IsSound host s.loads
      → Progress s n (take_step host options s n)
  unfolding take_step
  take_step-Progress s n sound =
      after_load-Progress (with_loads host options s _) n _
        (load_plugin_once-IsSound host s.loads n sound).0
