-- ===== src/Audio/Wav/Sound.antt =====
-- What the metadata of an accepted file satisfy.
use voice_asset_server.Base.{
  drop, ltb, ◌||◌, ℕ, zero, suc, ◌+◌, ◌*◌, ◌/◌, ◌%◌, ◌^◌, ◌≤◌, ◌<◌, ◌≡◌, refl, ◌⊎◌, inl, inr, true,
  Option, none, some, arith, ◌==◌, Result, ok, err, ◌>>=◌, Bool-cases, ◌∙◌, sym, ap, ==_iff, subst,
}
use native.Mathlib.Nat.{mul-add-div_right, div-add-mod'}
use voice_asset_server.Text.{Bytes}
use voice_asset_server.Audio.Wav.{
  Error, invalid_wav, Codec, Metadata, WavFormat, Found, u64, check_rates, parse_wav_format,
  take_chunk, next_chunk, walk, summarise, uint16, uint32, wav_codec, pcm_u8, pcm_s16le, pcm_s24le,
  pcm_s32le, pcm_f32le, pcm_f64le, probe_wav, check_header,
}
use voice_asset_server.Audio.Wav.Bounds.{probe_wav-err}

-- The bits of one sample.
abbrev pub bits_of : Codec → ℕ
bits_of pcm_u8 = 8
bits_of pcm_s16le = 16
bits_of pcm_s24le = 24
bits_of pcm_s32le = 32
bits_of pcm_f32le = 32
bits_of pcm_f64le = 64

-- The format of a chunk that was accepted.
abbrev SoundFormat : WavFormat → Type 0
SoundFormat f =
    (1 ≤ f.channels)
    × (f.channels ≤ 64)
    × (1000 ≤ f.sample_rate)
    × (f.sample_rate ≤ 768000)
    × (1 ≤ f.block_align)
    × (f.block_align ≡ f.channels * bits_of f.codec / 8)

abbrev SoundOption : Option WavFormat → Type 0
SoundOption none = Unit
SoundOption (some f) = SoundFormat f

wav_codec-bits_of : (tag bits : ℕ) (k : Codec) → wav_codec tag bits ≡ some k → bits ≡ bits_of k
unfolding wav_codec
wav_codec-bits_of tag bits k h = ground arith

-- The product of 32 bits does not wrap.
block_of : (c : ℕ) (k : Codec) → c ≤ 64 → c * bits_of k % 2 ^ 32 / 8 ≡ c * bits_of k / 8
block_of c pcm_u8 h = omega arith
block_of c pcm_s16le h = omega arith
block_of c pcm_s24le h = omega arith
block_of c pcm_s32le h = omega arith
block_of c pcm_f32le h = omega arith
block_of c pcm_f64le h = omega arith

check_rates_sound :
    (c r b a w : ℕ) (o : Option Codec) (f : WavFormat)
    → check_rates c r b a w o ≡ ok f
    → (f.channels ≡ c)
      × (f.sample_rate ≡ r)
      × (1 ≤ f.block_align)
      × (f.block_align ≡ c * w % 2 ^ 32 / 8)
      × (o ≡ some f.codec)
unfolding check_rates
check_rates_sound c r b a w none f h = absurd (ground arith)
check_rates_sound c r b a w (some k) f h = ground arith

parse_wav_format_sound : (s : Bytes) (f : WavFormat) → parse_wav_format s ≡ ok f → SoundFormat f
unfolding parse_wav_format
parse_wav_format_sound s f h =
    let c = uint16 (drop 2 s) in
    let r = uint32 (drop 4 s) in
    let w = uint16 (drop 14 s) in
    elim (Bool-cases (c == 0 || ltb 64 c)) [
      | inl bad ↦ let k = rw (bad, parse_wav_format) at h in absurd (ground arith)
      | inr few ↦ elim (Bool-cases (ltb r 1000 || ltb 768000 r)) [
        | inl bad ↦ let k = rw (few, bad, parse_wav_format) at h in absurd (ground arith)
        | inr slow ↦
            let k = rw (few, slow, parse_wav_format) at h in
            let (e, g, a, b, t) =
              check_rates_sound c r (uint32 (drop 8 s)) (uint16 (drop 12 s)) w
                (wav_codec (uint16 s) w) f k in
            let v = wav_codec-bits_of (uint16 s) w f.codec t in
            let block : f.block_align ≡ f.channels * bits_of f.codec / 8 =
              b
              ∙ ap (λ n. c * n % 2 ^ 32 / 8) v
              ∙ block_of c f.codec (ground (arith, few))
              ∙ ap (λ n. n * bits_of f.codec / 8) (sym e) in
            (
              rw e (ground (arith, few)),
              rw e (ground (arith, few)),
              rw g (ground (arith, slow)),
              rw g (ground (arith, slow)),
              a,
              block,
            )
      ]
    ]

take_chunk_sound :
    (file id : Bytes) (size start : ℕ) (found found' : Found)
    → take_chunk file id size start found ≡ ok found'
    → SoundOption found.format
    → SoundOption found'.format
unfolding take_chunk
take_chunk_sound file id size start found found' h s = grind (arith, parse_wav_format_sound)

next_chunk_sound :
    (file : Bytes) (end offset offset' : ℕ) (found found' : Found)
    → next_chunk file end offset found ≡ ok (offset', found')
    → SoundOption found.format
    → SoundOption found'.format
unfolding next_chunk
next_chunk_sound file end offset offset' found found' h s = grind (arith, take_chunk_sound)

ok_of_bind :
    {A B : Type 0} (x : Result Error A) (f : A → Result Error B) (b : B)
    → (x >>= f) ≡ ok b
    → (a : A) × (x ≡ ok a) × (f a ≡ ok b)
ok_of_bind (ok a) f b h = (a, refl, h)
ok_of_bind (err e) f b h = absurd (ground arith)

walk_sound :
    (fuel : ℕ) (file : Bytes) (end offset : ℕ) (found found' : Found)
    → walk fuel file end offset found ≡ ok found'
    → SoundOption found.format
    → SoundOption found'.format
unfolding walk
walk_sound zero file end offset found found' h s = absurd (ground arith)
walk_sound (suc fuel) file end offset found found' h s = elim (Bool-cases (ltb offset end)) [
  | inl more ↦
      let ((o, f), round, rest) =
        ok_of_bind (next_chunk file end offset found) _ found' (rw (more, walk) at h) in
      walk_sound fuel file end o f found' rest (next_chunk_sound file end offset o found f round s)
  | inr done ↦ let k = rw (done, walk) at h in ground arith
]

-- Whole seconds and the rest of the frames, in milliseconds, are the frames in milliseconds.
duration_eq :
    (frames rate : ℕ)
    → 0 < rate
    → frames / rate * 1000 + frames % rate * 1000 / rate ≡ frames * 1000 / rate
duration_eq frames rate h =
    sym (mul-add-div_right h (frames / rate * 1000) (frames % rate * 1000))
    ∙ ap (λ n. n / rate) (scaled (frames / rate) (frames % rate) (div-add-mod' frames rate))
  where
    scaled : (q m : ℕ) → q * rate + m ≡ frames → q * 1000 * rate + m * 1000 ≡ frames * 1000
    scaled q m e = omega (arith, e)

-- The bounds on the format; and the duration is that of the frames, rounded down, where the data are
-- whole frames, each of one sample for each channel.
pub record IsSound (m : Metadata) : Type 0 where
  pub channels_bounds : (1 ≤ m.channels) × (m.channels ≤ 64)
  pub rate_bounds : (1000 ≤ m.sample_rate) × (m.sample_rate ≤ 768000)
  pub frames : ℕ
  pub whole : frames * (m.channels * bits_of m.codec / 8) ≡ m.data_bytes
  pub duration : m.duration_ms ≡ frames * 1000 / m.sample_rate

whole_frames : (size block : ℕ) → (size % block == 0) ≡ true → size / block * block ≡ size
whole_frames size block h = omega (arith, div-add-mod' size block, (==_iff (size % block) 0).0 h)

abbrev metadata_of : WavFormat → ℕ → Metadata
metadata_of f size =
    let frames = size / f.block_align in
    record {
      codec = f.codec;
      sample_rate = f.sample_rate;
      channels = f.channels;
      bitrate = u64 (f.byte_rate * 8);
      duration_ms = frames / f.sample_rate * 1000 + frames % f.sample_rate * 1000 / f.sample_rate;
      data_bytes = size;
    }

summarise-some :
    (f : WavFormat) (size : ℕ) (m : Metadata)
    → summarise (some f) (some size) ≡ ok m
    → ((size % f.block_align == 0) ≡ true) × (m ≡ metadata_of f size)
unfolding summarise
summarise-some f size m h = ground arith

summarise-IsSound :
    (o : Option WavFormat) (d : Option ℕ) (m : Metadata)
    → summarise o d ≡ ok m
    → SoundOption o
    → IsSound m
unfolding summarise
summarise-IsSound none d m h s = absurd (ground arith)
summarise-IsSound (some f) none m h s = absurd (ground arith)
summarise-IsSound (some f) (some d) m h s =
    let (divides, made) = summarise-some f d m h in
    let frames = d / f.block_align in
    let (_, _, _, _, _, block) = s in
    subst IsSound (sym made) (record {
      channels_bounds = (omega arith, omega arith);
      rate_bounds = (omega arith, omega arith);
      frames = frames;
      whole = subst (λ n. frames * n ≡ d) block (whole_frames d f.block_align divides);
      duration = duration_eq (d / f.block_align) f.sample_rate (omega arith);
    })

probe_wav-IsSound :
    (file : Bytes) (size : ℕ) (m : Metadata) → probe_wav file size ≡ ok m → IsSound m
unfolding probe_wav
probe_wav-IsSound file size m h =
    let (end, _, k) = ok_of_bind (check_header file size) _ m h in
    let (found, walked, made) = ok_of_bind (walk (suc end) file end 12 nothing_found) _ m k in
    summarise-IsSound found.format found.data_size m made
      (walk_sound (suc end) file end 12 nothing_found found walked tt)
  where
    nothing_found : Found
    nothing_found = record { format = none; data_size = none }

-- Reading the metadata of any file of less than 2 ^ 63 bytes comes to an end: it either refuses the file
-- as an invalid WAV, or gives metadata with 1 to 64 channels, a rate of 1000 to 768000, data of whole
-- frames, and the duration of these frames in milliseconds, rounded down.
pub probe_wav-outcome :
    (file : Bytes) (size : ℕ)
    → size < 2 ^ 63
    → ((m : Metadata) × (probe_wav file size ≡ ok m) × IsSound m)
      ⊎ (probe_wav file size ≡ err invalid_wav)
probe_wav-outcome file size small = outcome (probe_wav file size) refl
  where
    outcome :
        (r : Result Error Metadata)
        → probe_wav file size ≡ r
        → ((m : Metadata) × (probe_wav file size ≡ ok m) × IsSound m)
          ⊎ (probe_wav file size ≡ err invalid_wav)
    outcome (ok m) h = inl (m, h, probe_wav-IsSound file size m h)
    outcome (err e) h = inr (h ∙ ap err (probe_wav-err file size e small h))
