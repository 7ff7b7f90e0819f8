-- ===== src/Core/Capabilities/Jobs.antt =====
-- core/capabilities.go: the capabilities that a job needs, and that nodes have by default.
pub mod Default
use livepeer.Base.{
  ℕ, zero, suc, Bool, true, false, not, List, [], ◌∷◌, ◌++◌, Option, none, some, ◌==◌,
  if◌then◌else◌,
}
use livepeer.Base.Int.{ℤ, pos, negsuc}
use livepeer.Core.Capabilities.{
  Capability, Capabilities, new_capabilities, set_capabilities, is_within, new_capability_string,
}
use livepeer.Core.Capabilities.Conversions.{
  Converted, StreamParameters, VideoProfile, capability_auth_token,
  capability_fractional_framerates, capability_gop, capability_h264,
  capability_h264_decode_420_10bit, capability_h264_decode_422_10bit,
  capability_h264_decode_422_8bit, capability_h264_decode_444_10bit,
  capability_h264_decode_444_8bit, capability_hevc_decode, capability_hevc_encode, capability_mp4,
  capability_mpeg7_video_signature, capability_mpegts, capability_profile_h264_baseline,
  capability_profile_h264_constrained_high, capability_profile_h264_high,
  capability_profile_h264_main, capability_scene_classification, capability_storage_direct,
  capability_storage_gcs, capability_storage_s3, capability_vp8_decode, capability_vp9_decode,
  converted, format_to_capability, input_capabilities, input_codec_to_capability,
  output_codec_to_capability, profile_to_capability, storage_to_capability, ◌>>=◌,
}

-- `DefaultCapabilities`
abbrev pub default_capabilities : List Capability
default_capabilities =
    capability_h264 ∷ capability_mpegts ∷ capability_mp4 ∷ capability_fractional_framerates
    ∷ capability_storage_direct ∷ capability_storage_s3 ∷ capability_storage_gcs
    ∷ capability_profile_h264_baseline ∷ capability_profile_h264_main ∷ capability_profile_h264_high
    ∷ capability_profile_h264_constrained_high ∷ capability_gop ∷ capability_auth_token
    ∷ capability_mpeg7_video_signature ∷ []

-- `OptionalCapabilities`
abbrev pub optional_capabilities : List Capability
optional_capabilities =
    capability_hevc_decode ∷ capability_hevc_encode ∷ capability_vp8_decode ∷ capability_vp9_decode
    ∷ capability_h264_decode_444_8bit ∷ capability_h264_decode_422_8bit
    ∷ capability_h264_decode_444_10bit ∷ capability_h264_decode_422_10bit
    ∷ capability_h264_decode_420_10bit ∷ []

-- `MandatoryOCapabilities`
abbrev pub mandatory_o_capabilities : List Capability
mandatory_o_capabilities = capability_auth_token ∷ []

-- `legacyCapabilities`
abbrev pub legacy_capabilities : List Capability
legacy_capabilities =
    capability_h264 ∷ capability_mpegts ∷ capability_mp4 ∷ capability_fractional_framerates
    ∷ capability_storage_direct ∷ capability_storage_s3 ∷ capability_storage_gcs
    ∷ capability_profile_h264_baseline ∷ capability_profile_h264_main ∷ capability_profile_h264_high
    ∷ capability_profile_h264_constrained_high ∷ capability_gop ∷ []

-- `LegacyOnly`
unfoldable pub legacy_only : Option Capabilities → Bool
unfolding is_within set_capabilities
legacy_only none = false
legacy_only (some bcast) = is_within bcast.bitstring (new_capability_string legacy_capabilities)

abbrev framerate_capabilities : ℕ → List Capability
framerate_capabilities zero = []
framerate_capabilities (suc den) = capability_fractional_framerates ∷ []

abbrev gop_capabilities : ℤ → List Capability
gop_capabilities (pos zero) = []
gop_capabilities _ = capability_gop ∷ []

-- What a rendition needs.
unfoldable pub profile_capabilities : VideoProfile → Converted (List Capability)
unfolding format_to_capability output_codec_to_capability profile_to_capability
profile_capabilities v = format_to_capability v.format >>= λ format.
    output_codec_to_capability v.encoder >>= λ encoder.
    profile_to_capability v.profile >>= λ profile.
    converted (
      format ∷ encoder ∷ framerate_capabilities v.framerate_den ++ profile ∷ gop_capabilities v.gop)

-- The loop over all renditions; it ends at the first error.
unfoldable pub all_profiles : List VideoProfile → Converted (List Capability)
unfolding profile_capabilities
all_profiles [] = converted []
all_profiles (v ∷ vs) =
    profile_capabilities v >>= λ cs. all_profiles vs >>= λ rest. converted (cs ++ rest)

abbrev signature_capabilities : ℕ → List Capability
signature_capabilities zero = []
signature_capabilities (suc freq) = capability_mpeg7_video_signature ∷ []

-- The loop over the detectors.
unfoldable pub detector_capabilities : List Bool → List Capability
detector_capabilities [] = []
detector_capabilities (true ∷ ds) = capability_scene_classification ∷ detector_capabilities ds
detector_capabilities (false ∷ ds) = detector_capabilities ds

-- The keys of the map that `JobCapabilities` collects.
unfoldable pub needed_capabilities : StreamParameters → Converted (List Capability)
unfolding all_profiles storage_to_capability input_codec_to_capability input_capabilities
    detector_capabilities
needed_capabilities params = all_profiles params.profiles >>= λ profiles.
    storage_to_capability params.os >>= λ storage.
    input_codec_to_capability params.codec >>= λ decoder. converted (
      capability_auth_token ∷ signature_capabilities params.verification_freq
      ++ input_capabilities params.codec params.chroma_depth
      ++ profiles
      ++ storage ∷ detector_capabilities params.scene_classifiers
      ++ decoder ∷ [])

-- `JobCapabilities`
unfoldable pub job_capabilities : StreamParameters → Converted Capabilities
unfolding needed_capabilities new_capabilities
job_capabilities params =
    needed_capabilities params >>= λ needed. converted (new_capabilities needed [])
