-- ===== src/Core/Capabilities/Jobs/Default.antt =====
-- core/capabilities.go: which jobs every node with the default capabilities takes.
use livepeer.Base.{
  ℕ, zero, suc, ◌≡◌, ◌≢◌, refl, sym, subst, Bool, true, List, [], ◌∷◌, ◌++◌, Option, none, some,
  Bool-cases, inl, inr, arith,
}
use livepeer.Base.Int.{ℤ, pos, negsuc}
use livepeer.Core.Capabilities.{
  Capability, Capabilities, same_capability, in_array, new_capabilities, compatible_with,
}
use livepeer.Core.Capabilities.Conversions.{
  h264, Format, format_none, format_mpegts, format_mp4, other_format, Profile, profile_none,
  h264_baseline, h264_main, h264_high, h264_constrained_high, other_profile, StorageType, direct,
  s3, google, other_storage, chroma_420, depth_8, VideoProfile, StreamParameters, Converted,
  converted, format_to_capability, output_codec_to_capability, input_codec_to_capability,
  storage_to_capability, profile_to_capability, input_capabilities, pixel_capabilities,
  capability_h264, capability_auth_token,
}
use livepeer.Core.Capabilities.Compatible.{IsSubset, compatible_with_iff}
use livepeer.Core.Capabilities.Jobs.{
  default_capabilities, mandatory_o_capabilities, profile_capabilities, all_profiles,
  detector_capabilities, needed_capabilities, job_capabilities, framerate_capabilities,
  gop_capabilities, signature_capabilities,
}

-- A capability that is unused, or that nodes have by default.
abbrev is_default : Capability → Bool
is_default (negsuc n) = true
is_default (pos v) = in_array (pos v) default_capabilities

abbrev AreDefault : List Capability → Type 0
AreDefault [] = Unit
AreDefault (c ∷ cs) = (is_default c ≡ true) × AreDefault cs

AreDefault-append :
    (cs ds : List Capability) → AreDefault cs → AreDefault ds → AreDefault (cs ++ ds)
AreDefault-append [] ds p q = q
AreDefault-append (c ∷ cs) ds (p, ps) q = (p, AreDefault-append cs ds ps q)

AreDefault-IsSubset : (cs : List Capability) → AreDefault cs → IsSubset cs default_capabilities
AreDefault-IsSubset [] p v e = absurd (ground arith)
AreDefault-IsSubset (negsuc n ∷ cs) (p, ps) v e = AreDefault-IsSubset cs ps v e
AreDefault-IsSubset (pos n ∷ cs) (p, ps) v e = elim (Bool-cases (same_capability (pos v) (pos n))) [
  | inl same ↦
      let v_eq : v ≡ n = ground arith in
      subst (λ x. in_array (pos x) default_capabilities ≡ true) (sym v_eq) p
  | inr other ↦ AreDefault-IsSubset cs ps v (rw (other) at e)
]

-- A rendition of H.264 in a known format and profile.
pub record IsPlainProfile (v : VideoProfile) : Type 0 where
  pub encoder : v.encoder ≡ h264
  pub format : v.format ≢ other_format
  pub profile : v.profile ≢ other_profile

abbrev pub ArePlain : List VideoProfile → Type 0
ArePlain [] = Unit
ArePlain (v ∷ vs) = IsPlainProfile v × ArePlain vs

-- A stream of H.264 in 8 bit 4:2:0 with such renditions, a known storage and no scene classifier.
pub record IsPlain (params : StreamParameters) : Type 0 where
  pub codec : params.codec ≡ h264
  pub chroma_depth : params.chroma_depth ≡ some (chroma_420, depth_8)
  pub profiles : ArePlain params.profiles
  pub os : params.os ≢ some other_storage
  pub detectors : detector_capabilities params.scene_classifiers ≡ []

-- A conversion that gives default capabilities only.
abbrev IsDefaultOne : Converted Capability → Type 0
IsDefaultOne r = (c : Capability) × (r ≡ converted c) × (is_default c ≡ true)

format-IsDefault : (f : Format) → f ≢ other_format → IsDefaultOne (format_to_capability f)
unfolding format_to_capability
format-IsDefault format_none h = (_, refl, refl)
format-IsDefault format_mpegts h = (_, refl, refl)
format-IsDefault format_mp4 h = (_, refl, refl)
format-IsDefault other_format h = absurd (h refl)

profile-IsDefault : (p : Profile) → p ≢ other_profile → IsDefaultOne (profile_to_capability p)
unfolding profile_to_capability
profile-IsDefault profile_none h = (_, refl, refl)
profile-IsDefault h264_baseline h = (_, refl, refl)
profile-IsDefault h264_main h = (_, refl, refl)
profile-IsDefault h264_high h = (_, refl, refl)
profile-IsDefault h264_constrained_high h = (_, refl, refl)
profile-IsDefault other_profile h = absurd (h refl)

storage-IsDefault :
    (s : Option StorageType) → s ≢ some other_storage → IsDefaultOne (storage_to_capability s)
unfolding storage_to_capability
storage-IsDefault none h = (_, refl, refl)
storage-IsDefault (some direct) h = (_, refl, refl)
storage-IsDefault (some s3) h = (_, refl, refl)
storage-IsDefault (some google) h = (_, refl, refl)
storage-IsDefault (some other_storage) h = absurd (h refl)

framerate-AreDefault : (den : ℕ) → AreDefault (framerate_capabilities den)
framerate-AreDefault zero = tt
framerate-AreDefault (suc den) = (refl, tt)

gop-AreDefault : (gop : ℤ) → AreDefault (gop_capabilities gop)
gop-AreDefault (pos zero) = tt
gop-AreDefault (pos (suc n)) = (refl, tt)
gop-AreDefault (negsuc n) = (refl, tt)

signature-AreDefault : (freq : ℕ) → AreDefault (signature_capabilities freq)
signature-AreDefault zero = tt
signature-AreDefault (suc freq) = (refl, tt)

abbrev AreDefaultAll : Converted (List Capability) → Type 0
AreDefaultAll r = (cs : List Capability) × (r ≡ converted cs) × AreDefault cs

profile_capabilities-AreDefaultAll :
    (v : VideoProfile) → IsPlainProfile v → AreDefaultAll (profile_capabilities v)
unfolding profile_capabilities output_codec_to_capability
profile_capabilities-AreDefaultAll v p =
    let (f, f_eq, f_default) = format-IsDefault v.format p.format in
    let (q, q_eq, q_default) = profile-IsDefault v.profile p.profile in
    (
      f ∷ capability_h264 ∷ framerate_capabilities v.framerate_den ++ q ∷ gop_capabilities v.gop,
      rw (f_eq, p.encoder, q_eq) refl,
      (
        f_default,
        (
          refl,
          AreDefault-append (framerate_capabilities v.framerate_den) (q ∷ gop_capabilities v.gop)
              (framerate-AreDefault v.framerate_den) (q_default, gop-AreDefault v.gop),
        ),
      ),
    )

all_profiles-AreDefaultAll :
    (vs : List VideoProfile) → ArePlain vs → AreDefaultAll (all_profiles vs)
unfolding all_profiles
all_profiles-AreDefaultAll [] p = ([], refl, tt)
all_profiles-AreDefaultAll (v ∷ vs) (p, ps) =
    let (cs, eq, all) = profile_capabilities-AreDefaultAll v p in
    let (rest, rest_eq, rest_all) = all_profiles-AreDefaultAll vs ps in
    (cs ++ rest, rw (eq, rest_eq) refl, AreDefault-append cs rest all rest_all)

needed_capabilities-AreDefaultAll :
    (params : StreamParameters)
    → IsPlain params
    → (cs : List Capability) × (needed_capabilities params ≡ converted (capability_auth_token ∷ cs))
      × AreDefault cs
unfolding needed_capabilities input_codec_to_capability input_capabilities pixel_capabilities
needed_capabilities-AreDefaultAll params p =
    let (profiles, eq, all) = all_profiles-AreDefaultAll params.profiles p.profiles in
    let (storage, storage_eq, storage_default) = storage-IsDefault params.os p.os in
    let signature = signature_capabilities params.verification_freq in
    let first = (signature ++ []) ++ profiles in
    let first_all : AreDefault first =
      AreDefault-append (signature ++ []) profiles
        (AreDefault-append signature [] (signature-AreDefault params.verification_freq) tt) all in
    (
      (first ++ (storage ∷ [])) ++ (capability_h264 ∷ []),
      rw (p.codec, p.chroma_depth, p.detectors, eq, storage_eq) refl,
      AreDefault-append (first ++ (storage ∷ [])) (capability_h264 ∷ [])
          (AreDefault-append first (storage ∷ []) first_all (storage_default, tt)) (refl, tt),
    )

-- The capabilities of a stream of H.264 in 8 bit 4:2:0, with renditions of H.264 in known formats and
-- profiles, a known storage and no scene classifier, are determined without an error, and every node
-- with the default capabilities that demands the mandatory ones is compatible with them.
pub job_capabilities-compatible_with :
    (params : StreamParameters)
    → IsPlain params
    → (job : Capabilities) × (job_capabilities params ≡ converted job)
      × (compatible_with (some job) (new_capabilities default_capabilities mandatory_o_capabilities)
          ≡ true)
unfolding job_capabilities
job_capabilities-compatible_with params p =
    let (cs, eq, all) = needed_capabilities-AreDefaultAll params p in
    let needed = capability_auth_token ∷ cs in
    (
      new_capabilities needed [],
      rw (eq) refl,
      (compatible_with_iff needed [] default_capabilities mandatory_o_capabilities).1
          (λ v e. ground (arith, e), AreDefault-IsSubset needed (refl, all)),
    )
