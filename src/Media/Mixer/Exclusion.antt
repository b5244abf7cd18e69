-- ===== src/Media/Mixer/Exclusion.antt =====
-- What a participant of a conference hears, crates/rsiprtp/src/media/mixer.rs.
use rsiprtp.Common.{
  ℕ, List, [], ◌∷◌, Bool-cases, false, inl, inr, none, some, remove, number_key, ◌==◌, ==_iff, ◌≡◌,
  refl, arith,
}
use rsiprtp.Rtp.Sequence.{ℤ}
use rsiprtp.Media.Mixer.{
  SourceState, contribute, mix_sources, mix_except, mix, remove_source, ConferenceMixer,
  get_mix_for, remove_participant,
}

contribute_itself :
    (ssrc : ℕ) (s : SourceState) (mixed : List ℤ × List ℕ)
    → contribute (some ssrc) ssrc s mixed ≡ mixed
unfolding contribute
contribute_itself ssrc s mixed = ground arith

contribute_other :
    (me ssrc : ℕ) (s : SourceState) (mixed : List ℤ × List ℕ)
    → (ssrc == me) ≡ false
    → contribute (some me) ssrc s mixed ≡ contribute none ssrc s mixed
unfolding contribute
contribute_other me ssrc s mixed other = ground arith

mix_sources-remove :
    (me : ℕ) (sources : List (ℕ × SourceState)) (mixed : List ℤ × List ℕ)
    → mix_sources (some me) sources mixed ≡ mix_sources none (remove me sources) mixed
unfolding mix_sources remove
mix_sources-remove me [] mixed = refl
mix_sources-remove me ((ssrc, s) ∷ sources) mixed = elim (Bool-cases (ssrc == me)) [
  | inl mine ↦
      rw (mine, (==_iff ssrc me).0 mine, contribute_itself me s mixed)
        (mix_sources-remove me sources mixed)
  | inr other ↦
      rw (other, contribute_other me ssrc s mixed other)
        (mix_sources-remove me sources (contribute none ssrc s mixed))
]

-- The mix for a participant, samples and contributing sources, is the mix of the whole conference after
-- this participant has been removed from it.
pub get_mix_for-remove_participant :
    (ssrc : ℕ) (c : ConferenceMixer)
    → (get_mix_for ssrc c).0 ≡ (mix c.frame_size (remove_participant ssrc c).mixer).0
unfolding get_mix_for mix mix_except remove_participant remove_source
get_mix_for-remove_participant ssrc c = mix_sources-remove ssrc c.mixer.sources _
