-- ===== src/Core/Capabilities/Conversions.antt =====
-- core/capabilities.go: the capabilities and what they are converted from. The enumerations of the media library have
-- the constants that the code compares with, and one for all others.
use livepeer.Base.{ℕ, Bool, List, [], ◌∷◌, Option, none, some}
use livepeer.Base.Int.{ℤ, pos, negsuc}
use livepeer.Core.Capabilities.{Capability}

abbrev pub capability_unused : Capability
capability_unused = negsuc 0

abbrev pub capability_h264 : Capability
capability_h264 = pos 0

abbrev pub capability_mpegts : Capability
capability_mpegts = pos 1

abbrev pub capability_mp4 : Capability
capability_mp4 = pos 2

abbrev pub capability_fractional_framerates : Capability
capability_fractional_framerates = pos 3

abbrev pub capability_storage_direct : Capability
capability_storage_direct = pos 4

abbrev pub capability_storage_s3 : Capability
capability_storage_s3 = pos 5

abbrev pub capability_storage_gcs : Capability
capability_storage_gcs = pos 6

abbrev pub capability_profile_h264_baseline : Capability
capability_profile_h264_baseline = pos 7

abbrev pub capability_profile_h264_main : Capability
capability_profile_h264_main = pos 8

abbrev pub capability_profile_h264_high : Capability
capability_profile_h264_high = pos 9

abbrev pub capability_profile_h264_constrained_high : Capability
capability_profile_h264_constrained_high = pos 10

abbrev pub capability_gop : Capability
capability_gop = pos 11

abbrev pub capability_auth_token : Capability
capability_auth_token = pos 12

abbrev pub capability_scene_classification : Capability
capability_scene_classification = pos 13

abbrev pub capability_mpeg7_video_signature : Capability
capability_mpeg7_video_signature = pos 14

abbrev pub capability_hevc_decode : Capability
capability_hevc_decode = pos 15

abbrev pub capability_hevc_encode : Capability
capability_hevc_encode = pos 16

abbrev pub capability_vp8_decode : Capability
capability_vp8_decode = pos 17

abbrev pub capability_vp9_decode : Capability
capability_vp9_decode = pos 18

abbrev pub capability_vp8_encode : Capability
capability_vp8_encode = pos 19

abbrev pub capability_vp9_encode : Capability
capability_vp9_encode = pos 20

-- The decoders of other pixel formats, from `Capability_H264_Decode_444_8bit` on.
abbrev pub capability_h264_decode_444_8bit : Capability
capability_h264_decode_444_8bit = pos 21

abbrev pub capability_h264_decode_422_8bit : Capability
capability_h264_decode_422_8bit = pos 22

abbrev pub capability_h264_decode_444_10bit : Capability
capability_h264_decode_444_10bit = pos 23

abbrev pub capability_h264_decode_422_10bit : Capability
capability_h264_decode_422_10bit = pos 24

abbrev pub capability_h264_decode_420_10bit : Capability
capability_h264_decode_420_10bit = pos 25

pub data VideoCodec : Type 0 where
  h264 h265 vp8 vp9 other_codec : VideoCodec

pub data Format : Type 0 where
  format_none format_mpegts format_mp4 other_format : Format

pub data Profile : Type 0 where
  profile_none h264_baseline h264_main h264_high h264_constrained_high other_profile : Profile

pub data StorageType : Type 0 where
  direct s3 google other_storage : StorageType

pub data Chroma : Type 0 where
  chroma_420 chroma_422 chroma_444 other_chroma : Chroma

pub data Depth : Type 0 where
  depth_8 depth_10 other_depth : Depth

-- The fields of `ffmpeg.VideoProfile` that the code reads; a GOP is a duration.
pub record VideoProfile : Type 0 where
  pub format : Format
  pub encoder : VideoCodec
  pub framerate_den : ℕ
  pub profile : Profile
  pub gop : ℤ

-- `StreamParameters`, as far as it is read: `chroma_depth` is what `PixelFormat.Properties` gives
-- without an error, `os` the storage type of the session's info, if there is one, and
-- `scene_classifiers` tells of each detector profile whether it is one.
pub record StreamParameters : Type 0 where
  pub profiles : List VideoProfile
  pub os : Option StorageType
  pub scene_classifiers : List Bool
  pub verification_freq : ℕ
  pub codec : VideoCodec
  pub chroma_depth : Option (Chroma × Depth)

pub data ConversionError : Type 0 where
  cap_format_conv cap_storage_conv cap_profile_conv cap_codec_conv : ConversionError

pub data Converted {ℓ} (A : Type ℓ) : Type ℓ where
  converted : A → Converted A
  unconverted : ConversionError → Converted A

infixl 5 ◌>>=◌
abbrev pub ◌>>=◌ {ℓ κ} : {A : Type ℓ} {B : Type κ} → Converted A → (A → Converted B) → Converted B
converted a >>= f = f a
unconverted e >>= f = unconverted e

-- `inputCodecToCapability`
unfoldable pub input_codec_to_capability : VideoCodec → Converted Capability
input_codec_to_capability h264 = converted capability_h264
input_codec_to_capability h265 = converted capability_hevc_decode
input_codec_to_capability vp8 = converted capability_vp8_decode
input_codec_to_capability vp9 = converted capability_vp9_decode
input_codec_to_capability other_codec = unconverted cap_codec_conv

-- `outputCodecToCapability`
unfoldable pub output_codec_to_capability : VideoCodec → Converted Capability
output_codec_to_capability h264 = converted capability_h264
output_codec_to_capability h265 = converted capability_hevc_encode
output_codec_to_capability vp8 = converted capability_vp8_encode
output_codec_to_capability vp9 = converted capability_vp9_encode
output_codec_to_capability other_codec = unconverted cap_codec_conv

-- `formatToCapability`
unfoldable pub format_to_capability : Format → Converted Capability
format_to_capability format_none = converted capability_mpegts
format_to_capability format_mpegts = converted capability_mpegts
format_to_capability format_mp4 = converted capability_mp4
format_to_capability other_format = unconverted cap_format_conv

-- `storageToCapability`
unfoldable pub storage_to_capability : Option StorageType → Converted Capability
storage_to_capability none = converted capability_unused
storage_to_capability (some s3) = converted capability_storage_s3
storage_to_capability (some google) = converted capability_storage_gcs
storage_to_capability (some direct) = converted capability_storage_direct
storage_to_capability (some other_storage) = unconverted cap_storage_conv

-- `profileToCapability`
unfoldable pub profile_to_capability : Profile → Converted Capability
profile_to_capability profile_none = converted capability_unused
profile_to_capability h264_baseline = converted capability_profile_h264_baseline
profile_to_capability h264_main = converted capability_profile_h264_main
profile_to_capability h264_high = converted capability_profile_h264_high
profile_to_capability h264_constrained_high = converted capability_profile_h264_constrained_high
profile_to_capability other_profile = unconverted cap_profile_conv

-- The switch on chroma and depth.
unfoldable pub pixel_capabilities : Option (Chroma × Depth) → List Capability
pixel_capabilities (some (chroma_444, depth_8)) = capability_h264_decode_444_8bit ∷ []
pixel_capabilities (some (chroma_422, depth_8)) = capability_h264_decode_422_8bit ∷ []
pixel_capabilities (some (chroma_444, depth_10)) = capability_h264_decode_444_10bit ∷ []
pixel_capabilities (some (chroma_422, depth_10)) = capability_h264_decode_422_10bit ∷ []
pixel_capabilities (some (chroma_420, depth_10)) = capability_h264_decode_420_10bit ∷ []
pixel_capabilities _ = []

-- The switch on the codec of the input.
unfoldable pub input_capabilities : VideoCodec → Option (Chroma × Depth) → List Capability
unfolding pixel_capabilities
input_capabilities h264 properties = pixel_capabilities properties
input_capabilities _ properties = []
