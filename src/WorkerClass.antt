-- ===== src/WorkerClass.antt =====
-- packages/core/src/worker-class.ts: the hardware that a flow needs.
--
-- An input's value that is no text names no encoder. The set of required hardware is a list.
pub mod Required
mod Tests
use trawlarr.Prelude.{
  ℕ, ◌==◌, Bool, true, false, ◌&&◌, ◌||◌, not, Option, none, some, List, [], ◌∷◌, ◌++◌, Str, codes,
  str_eq, ends_with, if◌then◌else◌, any, filter,
}
use trawlarr.Json.{Json, str, Fields, end, field}
use trawlarr.Flow.{FlowNode, FlowDefinition}
use trawlarr.Schedule.{WorkerClass, transcode, health}

pub data HardwareType : Type 0 where
  cpu nvenc qsv vaapi videotoolbox amf : HardwareType

abbrev pub hardware_types : List HardwareType
hardware_types = cpu ∷ nvenc ∷ qsv ∷ vaapi ∷ videotoolbox ∷ amf ∷ []

abbrev is_gpu : HardwareType → Bool
is_gpu cpu = false
is_gpu nvenc = true
is_gpu qsv = true
is_gpu vaapi = true
is_gpu videotoolbox = true
is_gpu amf = true

abbrev class_text : WorkerClass → Str
class_text transcode = codes "transcode"
class_text health = codes "healthcheck"

unfoldable pub tdarr_worker_type : WorkerClass → HardwareType → Str
tdarr_worker_type worker_class hardware =
    class_text worker_class ++ (if is_gpu hardware then codes "gpu" else codes "cpu")

abbrev encoder_suffixes : List (Str × HardwareType)
encoder_suffixes =
    (codes "_nvenc", nvenc)
    ∷ (codes "_qsv", qsv)
    ∷ (codes "_vaapi", vaapi)
    ∷ (codes "_videotoolbox", videotoolbox)
    ∷ (codes "_amf", amf)
    ∷ []

abbrev suffix_in : List (Str × HardwareType) → Str → HardwareType
suffix_in [] encoder = cpu
suffix_in ((suffix, hardware) ∷ suffixes) encoder =
    if ends_with encoder suffix then hardware else suffix_in suffixes encoder

unfoldable pub hardware_for_encoder : Str → HardwareType
hardware_for_encoder encoder = suffix_in encoder_suffixes encoder

unfoldable pub is_encoder_input_key : Str → Bool
is_encoder_input_key key = str_eq key (codes "encoder") || ends_with key (codes "Encoder")

unfoldable pub encoder_names_in : Fields → List Str
unfolding is_encoder_input_key
encoder_names_in end = []
encoder_names_in (field key (str value) fields) =
    if is_encoder_input_key key then value ∷ encoder_names_in fields else encoder_names_in fields
encoder_names_in (field key _ fields) = encoder_names_in fields

abbrev pub rank : HardwareType → ℕ
rank cpu = 0
rank nvenc = 1
rank qsv = 2
rank vaapi = 3
rank videotoolbox = 4
rank amf = 5

-- `a === b`
abbrev pub same_hardware : HardwareType → HardwareType → Bool
same_hardware a b = rank a == rank b

abbrev pub has_hardware : List HardwareType → HardwareType → Bool
has_hardware required hardware = any (λ h. same_hardware h hardware) required

-- `required.add(hardware)` of an encoder's hardware, unless that is the processor's.
abbrev pub add_hardware : HardwareType → List HardwareType → List HardwareType
add_hardware hardware required =
    if same_hardware hardware cpu || has_hardware required hardware
    then required
    else required ++ hardware ∷ []

unfoldable pub required_by_encoders : List HardwareType → List Str → List HardwareType
unfolding hardware_for_encoder
required_by_encoders required [] = required
required_by_encoders required (encoder ∷ encoders) =
    required_by_encoders (add_hardware (hardware_for_encoder encoder) required) encoders

unfoldable pub required_by_nodes : List HardwareType → List FlowNode → List HardwareType
unfolding required_by_encoders encoder_names_in
required_by_nodes required [] = required
required_by_nodes required (node ∷ nodes) =
    required_by_nodes (required_by_encoders required (encoder_names_in node.inputs)) nodes

unfoldable pub flow_required_hardware : FlowDefinition → List HardwareType
unfolding required_by_nodes
flow_required_hardware flow =
    filter (λ hardware. has_hardware (required_by_nodes [] flow.nodes) hardware) hardware_types
