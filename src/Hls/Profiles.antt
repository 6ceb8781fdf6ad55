-- ===== src/Hls/Profiles.antt =====
-- The choice of a transcoding profile: `buildHLSProfiles`, the cooldown of profiles that failed, and the
-- loop of `startHLSStream`. The process of a profile is a round that is given.
use Prim.Native.String.{String, ◌++◌}
use cryp.Prelude.{
  ℕ, ◌+◌, ◌*◌, ltb, Bool, true, false, ◌||◌, not, Option, none, some, List, [], ◌∷◌, if◌then◌else◌,
}
use cryp.GoMap.{str_eq, lookup, insert, remove}
use cryp.Hls.{HlsError}

-- `transcodeProfile`.
pub record TranscodeProfile : Type 0 where
  pub name : String
  pub before_input_args : List String
  pub video_args : List String

-- `hlsProfileFailureTTL`.
abbrev pub hls_profile_failure_ttl : ℕ
hls_profile_failure_ttl = 30 * 1_000_000_000

abbrev pub cpu_transcode_profile : TranscodeProfile
cpu_transcode_profile = record {
  name = "cpu";
  before_input_args = [];
  video_args = "-c:v" ∷ "libx264" ∷ "-preset" ∷ "veryfast" ∷ "-pix_fmt" ∷ "yuv420p" ∷ [];
}

-- `gpuTranscodeProfile("vaapi", …)`; `encoder` says that ffmpeg has h264_vaapi, and the device is empty
-- if there is none.
unfoldable pub gpu_transcode_profile : Bool → String → Option TranscodeProfile
gpu_transcode_profile encoder device =
    if not encoder || str_eq device ""
    then none
    else some (record {
      name = "vaapi-hwdec";
      before_input_args =
          "-hwaccel" ∷ "vaapi" ∷ "-hwaccel_device" ∷ device ∷ "-hwaccel_output_format" ∷ "vaapi"
          ∷ [];
      video_args = "-vf" ∷ "scale_vaapi=format=nv12" ∷ "-c:v" ∷ "h264_vaapi" ∷ "-qp" ∷ "24" ∷ [];
    })

-- `gpuFallbackTranscodeProfile("vaapi", …)`.
unfoldable pub gpu_fallback_transcode_profile : Bool → String → Option TranscodeProfile
gpu_fallback_transcode_profile encoder device =
    if not encoder || str_eq device ""
    then none
    else some (record {
      name = "vaapi";
      before_input_args = "-vaapi_device" ∷ device ∷ [];
      video_args = "-vf" ∷ "format=nv12,hwupload" ∷ "-c:v" ∷ "h264_vaapi" ∷ "-qp" ∷ "24" ∷ [];
    })

unfoldable pub put_profile : Option TranscodeProfile → List TranscodeProfile → List TranscodeProfile
put_profile none profiles = profiles
put_profile (some profile) profiles = profile ∷ profiles

-- `buildHLSProfiles` of the trimmed, lower-case setting.
unfoldable pub build_hls_profiles : String → Bool → String → List TranscodeProfile
build_hls_profiles requested encoder device =
    if str_eq requested "none" || str_eq requested "off" || str_eq requested "cpu"
    then cpu_transcode_profile ∷ []
    else put_profile
        (if str_eq requested "vaapi-hwdec" then gpu_transcode_profile encoder device else none)
        (put_profile
          (if str_eq requested ""
              || str_eq requested "auto"
              || str_eq requested "vaapi"
              || str_eq requested "vaapi-hwdec"
            then gpu_fallback_transcode_profile encoder device
            else none)
          (cpu_transcode_profile ∷ []))

-- `strings.Join(args, "\x00")`.
unfoldable pub join_args : List String → String
join_args [] = ""
join_args (a ∷ []) = a
join_args (a ∷ b ∷ rest) = a ++ ("\0" ++ join_args (b ∷ rest))

-- `hlsProfileKey`, where `bin` is the path of ffmpeg.
unfoldable pub hls_profile_key : String → TranscodeProfile → String
hls_profile_key bin profile =
    if str_eq profile.name "" || str_eq profile.name "cpu"
    then ""
    else bin
      ++ ("\0"
          ++ (profile.name
              ++ ("\0"
                  ++ (join_args profile.before_input_args
                      ++ ("\0" ++ join_args profile.video_args)))))

abbrev pub Failures : Type 0
Failures = List (String × ℕ)

-- `hlsProfileCoolingDown`, with what it leaves of the failures.
unfoldable pub hls_profile_cooling_down : String → Failures → TranscodeProfile → ℕ → Failures × Bool
hls_profile_cooling_down bin failures profile now =
    let key = hls_profile_key bin profile in
    if str_eq key "" then (failures, false) else elim (lookup key failures) [
      | none ↦ (failures, false)
      | some until ↦ if ltb now until then (failures, true) else (remove key failures, false)
    ]

-- `markHLSProfileFailure`.
unfoldable pub mark_hls_profile_failure : String → Failures → TranscodeProfile → ℕ → Failures
mark_hls_profile_failure bin failures profile now =
    let key = hls_profile_key bin profile in
    if str_eq key "" then failures else insert key (now + hls_profile_failure_ttl) failures

-- `clearHLSProfileFailure`.
unfoldable pub clear_hls_profile_failure : String → Failures → TranscodeProfile → Failures
clear_hls_profile_failure bin failures profile =
    let key = hls_profile_key bin profile in if str_eq key "" then failures else remove key failures

-- How a round of the loop goes: the start was cancelled before, its directory cannot be made, the
-- command does not start, the stream does not become ready, the start is cancelled meanwhile, or the
-- stream is ready.
pub data Round : Type 0 where
  over_before over_meanwhile : HlsError → Round
  no_directory not_started not_ready ready_now : Round

-- What `startHLSStream` returns: the profile of the stream, or why there is none.
pub data ProfileChoice : Type 0 where
  chosen : TranscodeProfile → ProfileChoice
  given_up : HlsError → ProfileChoice
  directory_failed last_failed no_profile : ProfileChoice

-- The error behind the loop.
unfoldable pub behind_loop : Bool → ProfileChoice
behind_loop failed_before = if failed_before then last_failed else no_profile

-- The end of a round, with what the later rounds come to.
unfoldable pub end_round :
    String
    → Failures
    → TranscodeProfile
    → Round
    → Failures × ProfileChoice
    → Failures × ProfileChoice
end_round bin failures profile (over_before problem) retried = (failures, given_up problem)
end_round bin failures profile (over_meanwhile problem) retried = (failures, given_up problem)
end_round bin failures profile no_directory retried = (failures, directory_failed)
end_round bin failures profile not_started retried = retried
end_round bin failures profile not_ready retried = retried
end_round bin failures profile ready_now retried =
    (clear_hls_profile_failure bin failures profile, chosen profile)

-- The loop of `startHLSStream`: each profile with the times at which it is looked at and marked, and its
-- round. `failed_before` says that `lastErr` is set.
unfoldable pub start_hls_stream :
    String → Failures → Bool → List (TranscodeProfile × (ℕ × ℕ × Round)) → Failures × ProfileChoice
start_hls_stream bin failures failed_before [] = (failures, behind_loop failed_before)
start_hls_stream bin failures failed_before ((profile, (seen, marked, round)) ∷ rest) =
    let looked = hls_profile_cooling_down bin failures profile seen in
    let failed_now = mark_hls_profile_failure bin looked.0 profile marked in
    let skipped = start_hls_stream bin looked.0 failed_before rest in
    let retried = start_hls_stream bin failed_now true rest in
    if looked.1 then skipped else end_round bin looked.0 profile round retried
