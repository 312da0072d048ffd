-- ===== src/Flow/Validate/Nodes.antt =====
-- The nodes of a flow as flow-validate.ts collects them, each id once.
use trawlarr.Prelude.{
  ◌≡◌, refl, arith, ◌⊎◌, inl, inr, Str, find, Bool-cases, str_eq_iff, str_eq_refl, HasDistinctKeys,
  str_eq, All-mem, Bool, true, false, some, List, [], ◌∷◌, ◌++◌, filter, any, Memᴰ, if◌then◌else◌,
}
use trawlarr.Flow.{FlowNode}
use trawlarr.Flow.Validate.{same_id, unique_nodes, node_key}
use trawlarr.Flow.Validate.Accepted.{IsNodeId}

mem_of_either :
    (known : Bool) (k : FlowNode) (ns : List FlowNode) {rest : List FlowNode} {n : FlowNode}
    → (Memᴰ n rest → Memᴰ n ns)
    → Memᴰ n (if known then rest else k ∷ rest)
    → Memᴰ n (k ∷ ns)
mem_of_either true k ns f m = Memᴰ.tail (f m)
mem_of_either false k ns f (Memᴰ.head e) = Memᴰ.head e
mem_of_either false k ns f (Memᴰ.tail m) = Memᴰ.tail (f m)

pub unique_nodes-mem :
    (before ns : List FlowNode) {n : FlowNode} → Memᴰ n (unique_nodes before ns) → Memᴰ n ns
unfolding unique_nodes
unique_nodes-mem before [] m = m
unique_nodes-mem before (k ∷ ns) {n} m =
    mem_of_either (any (same_id k.id) before) k ns (unique_nodes-mem (before ++ k ∷ []) ns) m

pub filter-none :
    (p : FlowNode → Bool) (ns : List FlowNode)
    → ((n : FlowNode) → Memᴰ n ns → p n ≡ false)
    → filter p ns ≡ []
unfolding filter
filter-none p [] h = refl
filter-none p (n ∷ ns) h = rw (h n (Memᴰ.head refl)) (filter-none p ns (λ k m. h k (Memᴰ.tail m)))

any-snoc :
    (p : FlowNode → Bool) (ns : List FlowNode) (n : FlowNode)
    → any p (ns ++ n ∷ []) ≡ true
    → (any p ns ≡ true) ⊎ (p n ≡ true)
any-snoc p [] n h = ground arith
any-snoc p (k ∷ ns) n h = elim (Bool-cases (p k)) [
  | inl t ↦ inl (rw t refl)
  | inr f ↦ elim (any-snoc p ns n (ground arith)) [ inl t ↦ inl (ground arith) | inr t ↦ inr t ]
]

-- Some node of the list without repetitions has the id of a node.
abbrev pub IsKept : Str → List FlowNode → List FlowNode → Type 0
IsKept id before ns = IsNodeId ns id ⊎ (any (same_id id) before ≡ true)

kept_rest :
    {id : Str} (known : Bool) (n : FlowNode) {rest : List FlowNode}
    → IsNodeId rest id
    → IsNodeId (if known then rest else n ∷ rest) id
kept_rest true n h = h
kept_rest false n (k, m, e) = (k, Memᴰ.tail m, e)

kept_here :
    (id : Str) (before : List FlowNode) (n : FlowNode) (rest : List FlowNode)
    → n.id ≡ id
    → IsKept id before (if any (same_id n.id) before then rest else n ∷ rest)
kept_here id before n rest e = elim (Bool-cases (any (same_id n.id) before)) [
  | inl t ↦ inr (rw (← e) t)
  | inr f ↦ inl (rw f (n, Memᴰ.head refl, e))
]

pub unique_nodes-IsKept :
    (before ns : List FlowNode) (k : FlowNode)
    → Memᴰ k ns
    → IsKept k.id before (unique_nodes before ns)
unfolding unique_nodes
unique_nodes-IsKept before [] k m = elim m [ ]
unique_nodes-IsKept before (n ∷ ns) k (Memᴰ.head e) =
    kept_here k.id before n (unique_nodes (before ++ n ∷ []) ns) (rw e refl)
unique_nodes-IsKept before (n ∷ ns) k (Memᴰ.tail m) =
    elim (unique_nodes-IsKept (before ++ n ∷ []) ns k m) [
      | inl kept ↦ inl (kept_rest (any (same_id n.id) before) n kept)
      | inr t ↦ elim (any-snoc (same_id k.id) before n t) [
        | inl t' ↦ inr t'
        | inr same ↦ kept_here k.id before n _ ((str_eq_iff n.id k.id).0 same)
      ]
    ]

pub find-distinct :
    (nodes : List FlowNode) (k : FlowNode)
    → HasDistinctKeys node_key nodes
    → Memᴰ k nodes
    → find (same_id k.id) nodes ≡ some k
unfolding find
find-distinct [] k d m = elim m [ ]
find-distinct (n ∷ nodes) k (d, ds) (Memᴰ.head e) = rw (e, str_eq_refl n.id) refl
find-distinct (n ∷ nodes) k (d, ds) (Memᴰ.tail m) = elim (Bool-cases (str_eq n.id k.id)) [
  | inl t ↦ absurd (All-mem _ nodes d m ((str_eq_iff n.id k.id).0 t))
  | inr f ↦ rw f (find-distinct nodes k ds m)
]

pub filter-mem :
    (p : FlowNode → Bool) (ns : List FlowNode) (k : FlowNode)
    → Memᴰ k (filter p ns)
    → Memᴰ k ns × (p k ≡ true)
unfolding filter
filter-mem p [] k m = elim m [ ]
filter-mem p (n ∷ ns) k m = elim (Bool-cases (p n)) [
  | inr f ↦ let (m', t) = filter-mem p ns k (rw f at m) in (Memᴰ.tail m', t)
  | inl t ↦ elim (rw t at m) [
    | Memᴰ.head e ↦ (Memᴰ.head e, rw e t)
    | Memᴰ.tail m' ↦ let (m'', t') = filter-mem p ns k m' in (Memᴰ.tail m'', t')
  ]
]

pub filter-mem_intro :
    (p : FlowNode → Bool) (ns : List FlowNode) (k : FlowNode)
    → Memᴰ k ns
    → p k ≡ true
    → Memᴰ k (filter p ns)
unfolding filter
filter-mem_intro p [] k m t = elim m [ ]
filter-mem_intro p (n ∷ ns) k (Memᴰ.head e) t =
    let passes : p n ≡ true = rw (← e) t in rw passes (Memᴰ.head e)
filter-mem_intro p (n ∷ ns) k (Memᴰ.tail m) t = elim (Bool-cases (p n)) [
  | inl t' ↦ rw t' (Memᴰ.tail (filter-mem_intro p ns k m t))
  | inr f ↦ rw f (filter-mem_intro p ns k m t)
]

pub same_node :
    (nodes : List FlowNode) (k n : FlowNode)
    → HasDistinctKeys node_key nodes
    → Memᴰ k nodes
    → Memᴰ n nodes
    → k.id ≡ n.id
    → k ≡ n
same_node nodes k n d mk mn e =
    let here = find-distinct nodes k d mk in
    let there = find-distinct nodes n d mn in cc (rw e at here, there)
