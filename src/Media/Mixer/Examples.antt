-- ===== src/Media/Mixer/Examples.antt =====
-- A conference of three participants.
use rsiprtp.Common.{[], ◌∷◌, ◌≡◌, refl, lookup, insert}
use rsiprtp.Rtp.Sequence.{pos, negsuc}
use rsiprtp.Media.Mixer.{
  ConferenceMixer, new, new_conference, add_source, submit_audio, remove_participant, get_mix_for,
  mix, mix_except, mix_sources, contribute, mix_in, clamp, ◌+ℤ◌,
}
use rsiprtp.Media.Mixer.Exclusion.{get_mix_for-remove_participant}

abbrev conference : ConferenceMixer
conference = submit_audio 3 (pos 30000 ∷ []) (
    submit_audio 2 (negsuc 99 ∷ pos 5 ∷ [])
      (submit_audio 1 (pos 30000 ∷ []) (new_conference 8000 1)))

get_mix_for-remove_participant_example :
    (get_mix_for 2 conference).0
    ≡ (mix conference.frame_size (remove_participant 2 conference).mixer).0
get_mix_for-remove_participant_example = get_mix_for-remove_participant 2 conference

heard_by_second :
    (get_mix_for 2 conference).0
    ≡ (pos 32767 ∷ pos 0 ∷ pos 0 ∷ pos 0 ∷ pos 0 ∷ pos 0 ∷ pos 0 ∷ pos 0 ∷ [], 1 ∷ 3 ∷ [])
unfolding new new_conference add_source submit_audio get_mix_for mix_except mix_sources contribute
    mix_in clamp ◌+ℤ◌ lookup insert
heard_by_second = refl
