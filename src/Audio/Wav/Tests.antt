-- ===== src/Audio/Wav/Tests.antt =====
-- The metadata of a small file at 1000 Hz, in 8 bits.
use voice_asset_server.Base.{◌≡◌, refl, arith, ◌⊎◌, [], ◌∷◌, ◌++◌, ok, err, text_eq}
use voice_asset_server.Text.{Bytes, codes}
use voice_asset_server.Audio.Wav.{
  Metadata, pcm_u8, invalid_wav, probe_wav, uint16, uint32, read_at, wav_codec, parse_wav_format,
}
use voice_asset_server.Audio.Wav.Sound.{probe_wav-outcome, IsSound}

abbrev format_chunk : Bytes
format_chunk =
    codes "fmt "
    ++ (16 ∷ 0 ∷ 0 ∷ 0 ∷ 1 ∷ 0 ∷ 1 ∷ 0 ∷ 232 ∷ 3 ∷ 0 ∷ 0 ∷ 232 ∷ 3 ∷ 0 ∷ 0 ∷ 1 ∷ 0 ∷ 8 ∷ 0 ∷ [])

-- Four frames, after a chunk of another name.
abbrev wav_file : Bytes
wav_file =
    codes "RIFF"
    ++ (50 ∷ 0 ∷ 0 ∷ 0 ∷ codes "WAVE"
        ++ (codes "LIST"
            ++ (1 ∷ 0 ∷ 0 ∷ 0 ∷ 7 ∷ 0 ∷ format_chunk
                ++ (codes "data" ++ (4 ∷ 0 ∷ 0 ∷ 0 ∷ 128 ∷ 128 ∷ 128 ∷ 128 ∷ [])))))

probe_wav_runs :
    probe_wav wav_file 58
    ≡ ok (record {
      codec = pcm_u8;
      sample_rate = 1000;
      channels = 1;
      bitrate = 8000;
      duration_ms = 4;
      data_bytes = 4;
    })
unfolding probe_wav text_eq codes read_at uint32 uint16 parse_wav_format wav_codec
probe_wav_runs = refl

probe_wav-outcome_example :
    ((m : Metadata) × (probe_wav wav_file 58 ≡ ok m) × IsSound m)
    ⊎ (probe_wav wav_file 58 ≡ err invalid_wav)
probe_wav-outcome_example = probe_wav-outcome wav_file 58 (omega arith)
