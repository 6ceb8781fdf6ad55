-- ===== src/Hls/Fallback.antt =====
-- A stream falls back to the processor, whatever the graphics card does.
use Prim.Native.String.{String}
use cryp.Prelude.{◌≡◌, ◌≢◌, refl, ℕ, Bool, true, false, ◌&&◌, ◌||◌, List, [], ◌∷◌, arith, by_if}
use cryp.GoMap.{str_eq}
use cryp.Hls.Profiles.{
  TranscodeProfile, put_profile, gpu_transcode_profile, gpu_fallback_transcode_profile,
  build_hls_profiles, hls_profile_key, Failures, hls_profile_cooling_down, mark_hls_profile_failure,
  Round, over_before, over_meanwhile, no_directory, not_started, not_ready, ready_now,
  ProfileChoice, chosen, no_profile, behind_loop, end_round, start_hls_stream,
}

abbrev pub Rounds : Type 0
Rounds = List (TranscodeProfile × (ℕ × ℕ × Round))

-- The profiles of the rounds.
abbrev pub profiles_of : List (TranscodeProfile × (ℕ × ℕ × Round)) → List TranscodeProfile
profiles_of [] = []
profiles_of ((profile, round) ∷ rest) = profile ∷ profiles_of rest

-- The last profile is the processor's.
unfoldable ends_with_cpu : List TranscodeProfile → Bool
ends_with_cpu [] = false
ends_with_cpu (p ∷ []) = str_eq p.name "cpu"
ends_with_cpu (p ∷ q ∷ rest) = ends_with_cpu (q ∷ rest)

build_hls_profiles-ends_with_cpu :
    (requested : String) (encoder : Bool) (device : String)
    → ends_with_cpu (build_hls_profiles requested encoder device) ≡ true
unfolding build_hls_profiles put_profile gpu_transcode_profile gpu_fallback_transcode_profile
    ends_with_cpu
build_hls_profiles-ends_with_cpu requested encoder device = ground arith

-- The processor never cools down.
cpu_never_cools :
    (bin : String) (failures : Failures) (p : TranscodeProfile) (now : ℕ)
    → str_eq p.name "cpu" ≡ true
    → hls_profile_cooling_down bin failures p now ≡ (failures, false)
unfolding hls_profile_cooling_down hls_profile_key
cpu_never_cools bin failures p now h =
    let either : str_eq p.name "" || str_eq p.name "cpu" ≡ true = ground (arith, h) in
    let keyless : hls_profile_key bin p ≡ "" = rw (either, hls_profile_key) refl in
    rw (keyless, hls_profile_cooling_down) refl

-- A round of a profile that does not work, or of one that does.
unfoldable pub goes_on : Round → Bool
goes_on not_started = true
goes_on not_ready = true
goes_on ready_now = true
goes_on _ = false

unfoldable pub is_ready : Round → Bool
is_ready ready_now = true
is_ready _ = false

-- Nothing stops the loop, and the last profile works.
unfoldable pub last_works : Rounds → Bool
last_works [] = false
last_works ((p, (seen, marked, round)) ∷ []) = is_ready round
last_works ((p, (seen, marked, round)) ∷ q ∷ rest) =
    let later = last_works (q ∷ rest) in goes_on round && later

module _ (bin : String) where
  abbrev HasReason : Failures × ProfileChoice → Type 0
  HasReason r = r.1 ≢ no_profile

  round-HasReason :
      (failures : Failures) (p : TranscodeProfile) (round : Round)
      (later : Failures × ProfileChoice)
      → HasReason later
      → HasReason (end_round bin failures p round later)
  unfolding end_round
  round-HasReason failures p (over_before problem) later h e = cc
  round-HasReason failures p (over_meanwhile problem) later h e = cc
  round-HasReason failures p no_directory later h e = cc
  round-HasReason failures p not_started later h e = h e
  round-HasReason failures p not_ready later h e = h e
  round-HasReason failures p ready_now later h e = cc

  never_without :
      (failures : Failures) (failed_before : Bool) (rounds : Rounds)
      → ends_with_cpu (profiles_of rounds) ≡ true
      → HasReason (start_hls_stream bin failures failed_before rounds)
  unfolding start_hls_stream ends_with_cpu behind_loop
  never_without failures failed_before [] h = absurd (ground (arith, h))
  never_without failures failed_before ((p, (seen, marked, round)) ∷ []) h =
      rw (cpu_never_cools bin failures p seen h) (round-HasReason failures p round _ (λ e. cc))
  never_without failures failed_before ((p, (seen, marked, round)) ∷ q ∷ rest) h =
      let looked = hls_profile_cooling_down bin failures p seen in
      let failed_now = mark_hls_profile_failure bin looked.0 p marked in
      let skipped = start_hls_stream bin looked.0 failed_before (q ∷ rest) in
      let retried = start_hls_stream bin failed_now true (q ∷ rest) in
      by_if HasReason looked.1 {x = skipped} {y = end_round bin looked.0 p round retried}
        (never_without looked.0 failed_before (q ∷ rest) h)
        (round-HasReason looked.0 p round retried (never_without failed_now true (q ∷ rest) h))

  abbrev IsStarted : Failures × ProfileChoice → Type 0
  IsStarted r = (p : TranscodeProfile) × (r.1 ≡ chosen p)

  round-IsStarted :
      (failures : Failures) (p : TranscodeProfile) (round : Round)
      (later : Failures × ProfileChoice)
      → goes_on round ≡ true
      → IsStarted later
      → IsStarted (end_round bin failures p round later)
  unfolding end_round goes_on
  round-IsStarted failures p (over_before problem) later g h = absurd (cc)
  round-IsStarted failures p (over_meanwhile problem) later g h = absurd (cc)
  round-IsStarted failures p no_directory later g h = absurd (cc)
  round-IsStarted failures p not_started later g h = h
  round-IsStarted failures p not_ready later g h = h
  round-IsStarted failures p ready_now later g h = (p, refl)

  last_round :
      (failures : Failures) (p : TranscodeProfile) (round : Round)
      (later : Failures × ProfileChoice)
      → is_ready round ≡ true
      → IsStarted (end_round bin failures p round later)
  unfolding end_round is_ready
  last_round failures p ready_now later h = (p, refl)
  last_round failures p (over_before problem) later h = absurd (cc)
  last_round failures p (over_meanwhile problem) later h = absurd (cc)
  last_round failures p no_directory later h = absurd (cc)
  last_round failures p not_started later h = absurd (cc)
  last_round failures p not_ready later h = absurd (cc)

  is_started :
      (failures : Failures) (failed_before : Bool) (rounds : Rounds)
      → ends_with_cpu (profiles_of rounds) ≡ true
      → last_works rounds ≡ true
      → IsStarted (start_hls_stream bin failures failed_before rounds)
  unfolding start_hls_stream ends_with_cpu last_works
  is_started failures failed_before [] h w = absurd (ground (arith, h))
  is_started failures failed_before ((p, (seen, marked, round)) ∷ []) h w =
      rw (cpu_never_cools bin failures p seen h) (last_round failures p round _ w)
  is_started failures failed_before ((p, (seen, marked, round)) ∷ q ∷ rest) h w =
      let looked = hls_profile_cooling_down bin failures p seen in
      let failed_now = mark_hls_profile_failure bin looked.0 p marked in
      let skipped = start_hls_stream bin looked.0 failed_before (q ∷ rest) in
      let retried = start_hls_stream bin failed_now true (q ∷ rest) in
      by_if IsStarted looked.1 {x = skipped} {y = end_round bin looked.0 p round retried}
        (is_started looked.0 failed_before (q ∷ rest) h (ground (arith, w)))
        (round-IsStarted looked.0 p round retried (ground (arith, w))
          (is_started failed_now true (q ∷ rest) h (ground (arith, w))))

-- When startHLSStream goes through the profiles that buildHLSProfiles makes, it never says that
-- there is no profile, and if no round before the last one cancels it or fails to make the
-- directory and the last profile, the one of the processor, becomes ready, it starts a stream,
-- whatever the cooldowns are.
pub start_hls_stream_lem :
    (bin requested device : String) (encoder : Bool) (failures : Failures) (rounds : Rounds)
    → profiles_of rounds ≡ build_hls_profiles requested encoder device
    → ((start_hls_stream bin failures false rounds).1 ≢ no_profile)
      × (last_works rounds ≡ true
          → (p : TranscodeProfile) × ((start_hls_stream bin failures false rounds).1 ≡ chosen p))
start_hls_stream_lem bin requested device encoder failures rounds all =
    let h : ends_with_cpu (profiles_of rounds) ≡ true =
      rw all (build_hls_profiles-ends_with_cpu requested encoder device) in
    (never_without bin failures false rounds h, is_started bin failures false rounds h)
