-- ===== src/Core/Capabilities/Tests.antt =====
-- core/capabilities.go at concrete inputs.
use livepeer.Base.{◌≡◌, ◌↔◌, refl, true, false, List, [], ◌∷◌, some, arith}
use livepeer.Base.Int.{pos, negsuc}
use livepeer.Core.Capabilities.{
  Capability, Capabilities, new_capabilities, new_capability_string, compatible_with, is_within,
  set_capabilities, set_capability,
}
use livepeer.Core.Capabilities.Conversions.{
  StreamParameters, VideoProfile, converted, h264, format_mp4, h264_main, s3, chroma_420, depth_8,
}
use livepeer.Core.Capabilities.Compatible.{
  IsSubset, compatible_with_iff, new_capability_string-order,
}
use livepeer.Core.Capabilities.Jobs.{
  default_capabilities, mandatory_o_capabilities, job_capabilities, detector_capabilities,
}
use livepeer.Core.Capabilities.Jobs.Default.{job_capabilities-compatible_with}

two_words : new_capability_string (pos 64 ∷ negsuc 0 ∷ pos 2 ∷ pos 2 ∷ []) ≡ 4 ∷ 1 ∷ []
unfolding set_capabilities set_capability
two_words = refl

compatible_with_iff_example :
    (compatible_with
        (some (new_capabilities (pos 12 ∷ pos 0 ∷ []) []))
        (new_capabilities default_capabilities mandatory_o_capabilities)
      ≡ true)
    ↔ (IsSubset mandatory_o_capabilities (pos 12 ∷ pos 0 ∷ [])
        × IsSubset (pos 12 ∷ pos 0 ∷ []) default_capabilities)
compatible_with_iff_example =
    compatible_with_iff (pos 12 ∷ pos 0 ∷ []) [] default_capabilities mandatory_o_capabilities

-- The node demands what the job does not have.
demands :
    compatible_with
      (some (new_capabilities (pos 0 ∷ []) []))
      (new_capabilities default_capabilities mandatory_o_capabilities)
    ≡ false
unfolding compatible_with is_within new_capabilities set_capabilities set_capability
demands = refl

abbrev forward : List Capability
forward = pos 3 ∷ pos 70 ∷ []

abbrev backward : List Capability
backward = pos 70 ∷ negsuc 0 ∷ pos 3 ∷ []

forth : IsSubset forward backward
forth v e = ground (arith, e)

back : IsSubset backward forward
back v e = ground (arith, e)

forward_and_backward : new_capability_string forward ≡ new_capability_string backward
forward_and_backward = new_capability_string-order forward backward forth back

abbrev rendition : VideoProfile
rendition = record {
  format = format_mp4;
  encoder = h264;
  framerate_den = 1;
  profile = h264_main;
  gop = pos 0;
}

abbrev stream : StreamParameters
stream = record {
  profiles = rendition ∷ [];
  os = some s3;
  scene_classifiers = [];
  verification_freq = 1;
  codec = h264;
  chroma_depth = some (chroma_420, depth_8);
}

job_capabilities-compatible_with_example :
    (job : Capabilities) × (job_capabilities stream ≡ converted job)
    × (compatible_with (some job) (new_capabilities default_capabilities mandatory_o_capabilities)
        ≡ true)
unfolding detector_capabilities
job_capabilities-compatible_with_example = job_capabilities-compatible_with stream (record {
  codec = refl;
  chroma_depth = refl;
  profiles = (
    record { encoder = refl; format = λ e. ground (arith, e); profile = λ e. ground (arith, e) },
    tt,
  );
  os = λ e. ground (arith, e);
  detectors = refl;
})
