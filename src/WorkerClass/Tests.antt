-- ===== src/WorkerClass/Tests.antt =====
-- A flow with one encoder of a graphics card.
use trawlarr.Prelude.{◌≡◌, refl, true, [], ◌∷◌, codes, ends_with, starts_with, str_eq, filter}
use trawlarr.Json.{end, field, str}
use trawlarr.Flow.{FlowNode, FlowDefinition}
use trawlarr.Schedule.{health}
use trawlarr.WorkerClass.{
  nvenc, qsv, has_hardware, flow_required_hardware, tdarr_worker_type, encoder_names_in,
  hardware_for_encoder,
}
use trawlarr.WorkerClass.Required.{flow_required_hardware-has_hardware}

abbrev encode : FlowNode
encode = record {
  id = codes "e";
  plugin_id = codes "p";
  plugin_version = codes "1";
  inputs =
      field (codes "videoEncoder") (str (codes "hevc_nvenc"))
        (field (codes "note") (str (codes "h264_qsv")) end);
}

abbrev flow : FlowDefinition
flow = record { nodes = encode ∷ []; edges = [] }

required : flow_required_hardware flow ≡ nvenc ∷ []
unfolding flow_required_hardware filter ends_with starts_with str_eq
required = refl

worker_type : tdarr_worker_type health qsv ≡ codes "healthcheckgpu"
unfolding tdarr_worker_type
worker_type = refl

flow_required_hardware-has_hardware_example :
    has_hardware (flow_required_hardware flow) nvenc ≡ true
unfolding ends_with starts_with str_eq encoder_names_in hardware_for_encoder
flow_required_hardware-has_hardware_example = flow_required_hardware-has_hardware flow nvenc
