-- ===== src/WorkerClass/Required.antt =====
-- The hardware that a flow requires is that of the encoders which its nodes name.
use trawlarr.Prelude.{
  ◌≡◌, refl, inl, inr, Bool, true, ◌&&◌, ◌||◌, not, List, [], ◌∷◌, ◌++◌, Str, any, filter,
  Bool-cases, arith,
}
use trawlarr.Flow.{FlowNode, FlowDefinition}
use trawlarr.WorkerClass.{
  HardwareType, cpu, nvenc, qsv, vaapi, videotoolbox, amf, hardware_types, hardware_for_encoder,
  encoder_names_in, same_hardware, has_hardware, add_hardware, required_by_encoders,
  required_by_nodes, flow_required_hardware,
}

-- One of the encoders runs on the hardware.
abbrev pub used_by_encoders : HardwareType → List Str → Bool
used_by_encoders h encoders = any (λ e. same_hardware (hardware_for_encoder e) h) encoders

-- A node of the flow names such an encoder.
abbrev pub used_by_nodes : HardwareType → List FlowNode → Bool
used_by_nodes h nodes = any (λ n. used_by_encoders h (encoder_names_in n.inputs)) nodes

has_hardware-snoc :
    (required : List HardwareType) (k h : HardwareType)
    → has_hardware (required ++ k ∷ []) h ≡ (has_hardware required h || same_hardware k h)
has_hardware-snoc [] k h = ground arith
has_hardware-snoc (r ∷ required) k h = ground (arith, has_hardware-snoc required k h)

has_hardware_same :
    (required : List HardwareType) (k h : HardwareType)
    → same_hardware k h ≡ true
    → has_hardware required k ≡ has_hardware required h
has_hardware_same [] k h s = refl
has_hardware_same (r ∷ required) k h s = ground (arith, has_hardware_same required k h s)

has_hardware-add_hardware :
    (required : List HardwareType) (k h : HardwareType)
    → has_hardware (add_hardware k required) h
      ≡ (has_hardware required h || not (same_hardware h cpu) && same_hardware k h)
has_hardware-add_hardware required k h =
    elim (Bool-cases (same_hardware k cpu || has_hardware required k)) [
      | inl t ↦ rw t (ground (arith, has_hardware_same required k h))
      | inr f ↦ rw f (ground (arith, has_hardware-snoc required k h))
    ]

has_hardware-required_by_encoders :
    (required : List HardwareType) (encoders : List Str) (h : HardwareType)
    → has_hardware (required_by_encoders required encoders) h
      ≡ (has_hardware required h || not (same_hardware h cpu) && used_by_encoders h encoders)
unfolding required_by_encoders
has_hardware-required_by_encoders required [] h = ground arith
has_hardware-required_by_encoders required (e ∷ encoders) h =
    let k = hardware_for_encoder e in
    ground (
      arith,
      has_hardware-required_by_encoders (add_hardware k required) encoders h,
      has_hardware-add_hardware required k h,
    )

has_hardware-required_by_nodes :
    (required : List HardwareType) (nodes : List FlowNode) (h : HardwareType)
    → has_hardware (required_by_nodes required nodes) h
      ≡ (has_hardware required h || not (same_hardware h cpu) && used_by_nodes h nodes)
unfolding required_by_nodes
has_hardware-required_by_nodes required [] h = ground arith
has_hardware-required_by_nodes required (n ∷ nodes) h =
    let encoders = encoder_names_in n.inputs in
    ground (
      arith,
      has_hardware-required_by_nodes (required_by_encoders required encoders) nodes h,
      has_hardware-required_by_encoders required encoders h,
    )

has_hardware-filter :
    (required types : List HardwareType) (h : HardwareType)
    → has_hardware (filter (λ t. has_hardware required t) types) h
      ≡ (has_hardware types h && has_hardware required h)
unfolding filter
has_hardware-filter required [] h = refl
has_hardware-filter required (t ∷ types) h =
    ground (arith, has_hardware-filter required types h, has_hardware_same required t h)

every_type : (h : HardwareType) → has_hardware hardware_types h ≡ true
every_type cpu = refl
every_type nvenc = refl
every_type qsv = refl
every_type vaapi = refl
every_type videotoolbox = refl
every_type amf = refl

-- A flow requires a type of hardware exactly if it is not the processor, and a node's encoder input
-- names an encoder of that hardware.
pub flow_required_hardware-has_hardware :
    (flow : FlowDefinition) (h : HardwareType)
    → has_hardware (flow_required_hardware flow) h
      ≡ (not (same_hardware h cpu) && used_by_nodes h flow.nodes)
unfolding flow_required_hardware
flow_required_hardware-has_hardware flow h = ground (
  arith,
  has_hardware-filter (required_by_nodes [] flow.nodes) hardware_types h,
  every_type h,
  has_hardware-required_by_nodes [] flow.nodes h,
)
