-- ===== src/FcSample/Examples.antt =====
-- Eight samples of a log of 1000 bytes.
use mavlink_companion_log_se.Base.{◌≤◌, ◌≡◌, refl, [], ◌∷◌, length, arith}
use mavlink_companion_log_se.Types.{Text}
use mavlink_companion_log_se.FcSample.{
  nybble, seed_loop, seed_from_params, xorshift64, insert_offset, add_anchor, anchors, random_loop,
  build_fc_sample_offsets,
}
use mavlink_companion_log_se.FcSample.Offsets.{Samples, build_fc_sample_offsets_lem}
use mavlink_companion_log_se.LogProtocol.{align_down_to_chunk, chunk_slot_index}

abbrev hex_text : Text
hex_text = b'b' ∷ b'a' ∷ b'7' ∷ b'8' ∷ []

anchors_run : anchors 1000 ≡ 0 ∷ 90 ∷ 180 ∷ 450 ∷ 720 ∷ 810 ∷ 900 ∷ []
unfolding anchors add_anchor insert_offset align_down_to_chunk
anchors_run = refl

eight_run : length (build_fc_sample_offsets 1000 8 3 1000 hex_text) ≡ 8
unfolding build_fc_sample_offsets anchors add_anchor insert_offset align_down_to_chunk random_loop
    chunk_slot_index seed_from_params seed_loop nybble xorshift64
eight_run = refl

build_fc_sample_offsets_lem_example :
    Samples 1000 0 (build_fc_sample_offsets 1000 8 3 1000 hex_text)
    × (length (build_fc_sample_offsets 1000 8 3 1000 hex_text) ≤ 8)
build_fc_sample_offsets_lem_example =
    build_fc_sample_offsets_lem 1000 8 3 1000 hex_text (omega arith)
