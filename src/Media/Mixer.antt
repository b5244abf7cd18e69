-- ===== src/Media/Mixer.antt =====
-- The mixers of a conference, crates/rsiprtp/src/media/mixer.rs. A hash map is a list of entries; the
-- order in which the source iterates over one is not fixed, and here it is that of the list.
pub mod Exclusion
mod Examples
use rsiprtp.Common.{
  ℕ, ◌+◌, ◌-◌, ◌*◌, ◌/◌, ◌%◌, min, List, [], ◌∷◌, ◌++◌, map, length, replicate, Bool, true, false,
  not, ◌||◌, ◌&&◌, Option, none, some, if◌then◌else◌, ltb, leb, ◌==◌, lookup, insert, remove,
  number_key,
}
use rsiprtp.Rtp.Sequence.{ℤ, pos, negsuc}

pub record SourceState : Type 0 where
  pub samples : List ℤ
  pub active : Bool
  pub silent_frames : ℕ

pub record AudioMixer : Type 0 where
  pub sources : List (ℕ × SourceState)
  pub max_sources : ℕ
  pub output_buffer : List ℤ

unfoldable pub new : AudioMixer
new = record { sources = []; max_sources = 15; output_buffer = [] }

unfoldable pub set_max_sources : ℕ → AudioMixer → AudioMixer
set_max_sources max m = record m { max_sources = min max 15 }

-- The inactive source with the most silent frames, the last one of these.
unfoldable pub longest_silent : List (ℕ × SourceState) → Option (ℕ × ℕ)
longest_silent [] = none
longest_silent ((ssrc, s) ∷ sources) =
    let rest = longest_silent sources in
    if s.active then rest else elim rest [
      | none ↦ some (ssrc, s.silent_frames)
      | some (other, frames) ↦
          if leb s.silent_frames frames then some (other, frames) else some (ssrc, s.silent_frames)
    ]

abbrev put : ℕ → List ℤ → AudioMixer → AudioMixer
put ssrc samples m =
    let source : SourceState = record { samples = samples; active = true; silent_frames = 0 } in
    record m { sources = insert ssrc source m.sources }

unfoldable pub add_source : ℕ → List ℤ → AudioMixer → AudioMixer
add_source ssrc samples m = elim (lookup ssrc m.sources) [
  | some s ↦ put ssrc samples m
  | none ↦
      if leb m.max_sources (length m.sources)
      then elim (longest_silent m.sources) [
        | none ↦ m
        | some (old_ssrc, frames) ↦
            put ssrc samples (record m { sources = remove old_ssrc m.sources })
      ]
      else put ssrc samples m
]

unfoldable pub mark_silent : ℕ → AudioMixer → AudioMixer
mark_silent ssrc m = elim (lookup ssrc m.sources) [
  | none ↦ m
  | some s ↦
      let source = record s {
        active = false;
        silent_frames = (s.silent_frames + 1) % 4294967296;
      } in
      record m { sources = insert ssrc source m.sources }
]

unfoldable pub remove_source : ℕ → AudioMixer → AudioMixer
remove_source ssrc m = record m { sources = remove ssrc m.sources }

-- The sum of two i16 in i32.
infix 60 ◌+ℤ◌
unfoldable pub ◌+ℤ◌ : ℤ → ℤ → ℤ
pos a +ℤ pos b = pos (a + b)
pos a +ℤ negsuc b = if ltb b a then pos (a - b - 1) else negsuc (b - a)
negsuc a +ℤ pos b = if ltb a b then pos (b - a - 1) else negsuc (a - b)
negsuc a +ℤ negsuc b = negsuc (a + b + 1)

-- `clamp(i16::MIN, i16::MAX)`.
unfoldable pub clamp : ℤ → ℤ
clamp (pos n) = pos (min n 32767)
clamp (negsuc n) = negsuc (min n 32767)

-- The loop over the samples of one source.
unfoldable pub mix_in : List ℤ → List ℤ → List ℤ
mix_in [] samples = []
mix_in (o ∷ output) [] = o ∷ output
mix_in (o ∷ output) (s ∷ samples) = clamp (o +ℤ s) ∷ mix_in output samples

abbrev is_empty : List ℤ → Bool
is_empty [] = true
is_empty (s ∷ samples) = false

abbrev is_excluded : Option ℕ → ℕ → Bool
is_excluded none ssrc = false
is_excluded (some excluded) ssrc = excluded == ssrc

-- The body of the loop over the sources, on the output and the list of contributing sources.
unfoldable pub contribute : Option ℕ → ℕ → SourceState → List ℤ × List ℕ → List ℤ × List ℕ
contribute excluded ssrc s (output, csrcs) =
    if is_excluded excluded ssrc
    then (output, csrcs)
    else if not s.active || is_empty s.samples
    then (output, csrcs)
    else (mix_in output s.samples, if ltb (length csrcs) 15 then csrcs ++ (ssrc ∷ []) else csrcs)

unfoldable pub mix_sources : Option ℕ → List (ℕ × SourceState) → List ℤ × List ℕ → List ℤ × List ℕ
mix_sources excluded [] mixed = mixed
mix_sources excluded ((ssrc, s) ∷ sources) mixed =
    mix_sources excluded sources (contribute excluded ssrc s mixed)

unfoldable pub mix_except : ℕ → Option ℕ → AudioMixer → (List ℤ × List ℕ) × AudioMixer
mix_except num_samples excluded m =
    let mixed = mix_sources excluded m.sources (replicate num_samples (pos 0), []) in
    (mixed, record m { output_buffer = mixed.0 })

unfoldable pub mix : ℕ → AudioMixer → (List ℤ × List ℕ) × AudioMixer
mix num_samples m = mix_except num_samples none m

unfoldable pub active_source_count : List (ℕ × SourceState) → ℕ
active_source_count [] = 0
active_source_count ((ssrc, s) ∷ sources) =
    let rest = active_source_count sources in if s.active then rest + 1 else rest

unfoldable pub clear : AudioMixer → AudioMixer
clear m = record m { sources = [] }

pub record ConferenceMixer : Type 0 where
  pub mixer : AudioMixer
  pub frame_size : ℕ

unfoldable pub new_conference : ℕ → ℕ → ConferenceMixer
new_conference sample_rate frame_duration_ms = record {
  mixer = new;
  frame_size = (sample_rate * frame_duration_ms) % 4294967296 / 1000;
}

unfoldable pub submit_audio : ℕ → List ℤ → ConferenceMixer → ConferenceMixer
submit_audio ssrc samples c = record c { mixer = add_source ssrc samples c.mixer }

-- `ConferenceMixer::mark_silent`.
unfoldable pub mark_participant_silent : ℕ → ConferenceMixer → ConferenceMixer
mark_participant_silent ssrc c = record c { mixer = mark_silent ssrc c.mixer }

unfoldable pub remove_participant : ℕ → ConferenceMixer → ConferenceMixer
remove_participant ssrc c = record c { mixer = remove_source ssrc c.mixer }

unfoldable pub get_mix_for : ℕ → ConferenceMixer → (List ℤ × List ℕ) × ConferenceMixer
get_mix_for ssrc c =
    let (mixed, mixer) = mix_except c.frame_size (some ssrc) c.mixer in
    (mixed, record c { mixer = mixer })
