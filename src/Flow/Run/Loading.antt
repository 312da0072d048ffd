-- ===== src/Flow/Run/Loading.antt =====
-- What a run of run-flow.ts knows of the plugins that it loaded.
use trawlarr.Prelude.{
  ◌≡◌, refl, sym, ap, subst, ◌∙◌, ◌⊎◌, inl, inr, Bool, true, Option, none, some, List, [], ◌∷◌,
  ◌++◌, ℕ, Str, str_eq, str_eq_sound, All, Memᴰ, Bool-cases, Option-cases,
}
use trawlarr.Flow.{FlowNode}
use trawlarr.Flow.Run.{
  Details, Load, loaded, load_failed, load_aborted, Host, Options, Loads, Search, found, missing,
  search_aborted, same_id, cached, load_plugin_once, find_plugin, node_by_id, find_start_node,
  find_error_handler,
}

pub node_by_id-some :
    (ns : List FlowNode) (id : Str) {m : FlowNode} → node_by_id ns id ≡ some m → m.id ≡ id
unfolding node_by_id
node_by_id-some [] id h = cc
node_by_id-some (n ∷ ns) id {m} h = elim (Option-cases (node_by_id ns id)) [
  | inr (k, e) ↦ node_by_id-some ns id (e ∙ (rw (e, node_by_id) at h))
  | inl e ↦ elim (Bool-cases (same_id id n)) [
    | inl t ↦
        let same : n ≡ m = cc (rw (e, t, node_by_id) at h) in rw (← same) (str_eq_sound n.id id t)
    | inr f ↦ cc (rw (e, f, node_by_id) at h)
  ]
]

module _ {V : Type 0} (host : Host V) where
  -- At some time the loader gave the plugin of a node with the id.
  abbrev pub IsPluginOf : Str → Details → Type 0
  IsPluginOf id d =
      (n : FlowNode) × (calls : ℕ) × (n.id ≡ id) × (host.load_plugin calls n ≡ loaded d)

  abbrev pub IsSound : Loads → Type 0
  IsSound l = All (λ entry. IsPluginOf entry.0 entry.1) l.loaded_by_node_id

  cached-IsPluginOf :
      (ds : List (Str × Details)) (id : Str) {d : Details}
      → All (λ entry. IsPluginOf entry.0 entry.1) ds
      → cached ds id ≡ some d
      → IsPluginOf id d
  cached-IsPluginOf [] id h e = cc
  cached-IsPluginOf ((k, d') ∷ ds) id {d} (h, hs) e = elim (Bool-cases (str_eq k id)) [
    | inl t ↦
        let same : d' ≡ d = cc (rw t at e) in
        subst (λ i. IsPluginOf i d) (str_eq_sound k id t) (subst (IsPluginOf k) same h)
    | inr f ↦ cached-IsPluginOf ds id hs (rw f at e)
  ]

  abbrev IsLoad : FlowNode → Load → Type 0
  IsLoad n (loaded d) = IsPluginOf n.id d
  IsLoad n (load_failed message) = Unit
  IsLoad n load_aborted = Unit

  pub load_plugin_once-IsSound :
      (l : Loads) (n : FlowNode)
      → IsSound l
      → IsSound (load_plugin_once host l n).1 × IsLoad n (load_plugin_once host l n).0
  unfolding load_plugin_once
  load_plugin_once-IsSound l n h = by_cache (cached l.loaded_by_node_id n.id) refl
    where
      by_load :
          (r : Load)
          → host.load_plugin l.loader_calls n ≡ r
          → cached l.loaded_by_node_id n.id ≡ none
          → IsSound (load_plugin_once host l n).1 × IsLoad n (load_plugin_once host l n).0
      by_load (loaded d) e c =
          rw (load_plugin_once, c, e)
            (((n, l.loader_calls, refl, e), h), (n, l.loader_calls, refl, e))
      by_load (load_failed message) e c = rw (load_plugin_once, c, e) (h, tt)
      by_load load_aborted e c = rw (load_plugin_once, c, e) (h, tt)

      by_cache :
          (o : Option Details)
          → cached l.loaded_by_node_id n.id ≡ o
          → IsSound (load_plugin_once host l n).1 × IsLoad n (load_plugin_once host l n).0
      by_cache (some d) c =
          rw (load_plugin_once, c) (h, cached-IsPluginOf l.loaded_by_node_id n.id h c)
      by_cache none c = by_load _ refl c

  -- The node that a search found is one of the nodes, and its plugin passes the test.
  abbrev pub IsMatch : (Details → Bool) → List FlowNode → Search → Type 0
  IsMatch test ns (found n) = Memᴰ n ns × (d : Details) × IsPluginOf n.id d × (test d ≡ true)
  IsMatch test ns (missing failures) = Unit
  IsMatch test ns search_aborted = Unit

  abbrev pub Found : (Details → Bool) → List FlowNode → Search × Loads → Type 0
  Found test ns r = IsSound r.1 × IsMatch test ns r.0

  IsMatch-later :
      (test : Details → Bool) (n : FlowNode) (ns : List FlowNode) (r : Search)
      → IsMatch test ns r
      → IsMatch test (n ∷ ns) r
  IsMatch-later test n ns (found k) (m, d, p, t) = (Memᴰ.tail m, d, p, t)
  IsMatch-later test n ns (missing failures) h = tt
  IsMatch-later test n ns search_aborted h = tt

  pub find_plugin-IsMatch :
      (test : Details → Bool) (failures : List (Str × Str × Str)) (l : Loads) (ns : List FlowNode)
      → IsSound l
      → Found test ns (find_plugin host test failures l ns)
  unfolding find_plugin
  find_plugin-IsMatch test failures l [] h = (h, tt)
  find_plugin-IsMatch test failures l (n ∷ ns) h =
      let (sound, load) = load_plugin_once-IsSound l n h in
      by_load (load_plugin_once host l n).0 refl sound load (λ failures'.
        let (s', m) = find_plugin-IsMatch test failures' (load_plugin_once host l n).1 ns sound in
        (s', IsMatch-later test n ns _ m))
    where
      by_load :
          (r : Load)
          → (load_plugin_once host l n).0 ≡ r
          → IsSound (load_plugin_once host l n).1
          → IsLoad n r
          → ((failures' : List (Str × Str × Str))
              → Found test
                  (n ∷ ns)
                  (find_plugin host test failures' (load_plugin_once host l n).1 ns))
          → Found test (n ∷ ns) (find_plugin host test failures l (n ∷ ns))
      by_load (loaded d) e s k later = elim (Bool-cases (test d)) [
        | inl t ↦ rw (find_plugin, e, t) (s, (Memᴰ.head refl, d, k, t))
        | inr f ↦ rw (find_plugin, e, f) (later failures)
      ]
      by_load (load_failed message) e s k later =
          rw (find_plugin, e) (later (failures ++ (n.id, n.plugin_id, message) ∷ []))
      by_load load_aborted e s k later = rw (find_plugin, e) (s, tt)

  -- The id of a node whose plugin, as it was loaded for the id, passes the test.
  abbrev pub HasPlugin : (Details → Bool) → List FlowNode → Str → Type 0
  HasPlugin test nodes id =
      (n : FlowNode) × Memᴰ n nodes
      × (n.id ≡ id)
      × (d : Details) × IsPluginOf id d
      × (test d ≡ true)

  pub IsMatch-HasPlugin :
      (test : Details → Bool) (nodes : List FlowNode) (n : FlowNode)
      → IsMatch test nodes (found n)
      → HasPlugin test nodes n.id
  IsMatch-HasPlugin test nodes n (m, d, p, t) = (n, m, refl, d, p, t)

  module _ (options : Options) where
    abbrev pub IsHandler : Str → Type 0
    IsHandler id = HasPlugin (λ d. d.is_error_handler) options.flow.nodes id

    -- The node that the options name, or if they name none a node of a start plugin.
    abbrev pub IsStartOf : Str → Type 0
    IsStartOf id =
        (options.start_node_id ≡ some id)
        ⊎ ((options.start_node_id ≡ none)
            × HasPlugin (λ d. d.is_start_plugin) options.flow.nodes id)

    abbrev pub Starts : Search → Type 0
    Starts (found n) = IsStartOf n.id
    Starts (missing failures) = Unit
    Starts search_aborted = Unit

    pub find_error_handler-Found :
        (l : Loads)
        → IsSound l
        → Found (λ d. d.is_error_handler) options.flow.nodes (find_error_handler host options l)
    unfolding find_error_handler
    find_error_handler-Found l h =
        find_plugin-IsMatch (λ d. d.is_error_handler) [] l options.flow.nodes h

    IsMatch-Starts :
        (r : Search)
        → options.start_node_id ≡ none
        → IsMatch (λ d. d.is_start_plugin) options.flow.nodes r
        → Starts r
    IsMatch-Starts (found n) e m = inr (e, IsMatch-HasPlugin (λ d. d.is_start_plugin) _ n m)
    IsMatch-Starts (missing failures) e m = tt
    IsMatch-Starts search_aborted e m = tt

    abbrev pub IsBegun : Search × Loads → Type 0
    IsBegun r = IsSound r.1 × Starts r.0

    pub find_start_node-Starts : (l : Loads) → IsSound l → IsBegun (find_start_node host options l)
    unfolding find_start_node
    find_start_node-Starts l h = by_option options.start_node_id refl
      where
        by_node :
            (id : Str) (o : Option FlowNode)
            → options.start_node_id ≡ some id
            → node_by_id options.flow.nodes id ≡ o
            → IsBegun (find_start_node host options l)
        by_node id none e f = rw (find_start_node, e, f) (h, tt)
        by_node id (some n) e f =
            rw (find_start_node, e, f)
              (h, inl (ap some (sym (node_by_id-some options.flow.nodes id f))))

        by_option :
            (o : Option Str) → options.start_node_id ≡ o → IsBegun (find_start_node host options l)
        by_option none e =
            let (sound, m) =
              find_plugin-IsMatch (λ d. d.is_start_plugin) [] l options.flow.nodes h in
            let starts = IsMatch-Starts _ e m in rw (find_start_node, e) (sound, rw e at starts)
        by_option (some id) e = by_node id _ e refl
