-- ===== src/Codec/Nals/Tests.antt =====
-- The walks on the sample stream.
use mgw.Prelude.{◌≡◌, Bool, some, arith}
use mgw.Codec.Nals.{keyframe, Params, get_avc_sps_pps}
use mgw.Codec.Nals.Total.{walks_total}
use mgw.Codec.Nals.Samples.{stream, stream_bytes}

abbrev nothing : Params
nothing = record { sps = 0; sps_size = 0; pps = 0; pps_size = 0 }

walks_total_example :
    ((b : Bool) × (keyframe stream 19 100 18 ≡ some b))
    × ((r : Params) × (get_avc_sps_pps stream 19 100 18 nothing ≡ some r))
walks_total_example = walks_total stream 100 18 nothing stream_bytes (omega arith)
