-- ===== src/Audio/Wav.antt =====
-- internal/audio/wav.go: the metadata of a RIFF/WAVE file. `file` is what the reader gives, `size` the
-- size that the caller states; both are non-negative. Every refusal wraps `ErrInvalidWAV`.
pub mod Bounds
pub mod Sound
mod Tests
use voice_asset_server.Base.{
  ℕ, zero, suc, ◌+◌, ◌-◌, ◌*◌, ◌/◌, ◌%◌, ◌^◌, Bool, true, false, not, ◌&&◌, ◌||◌, Option, none,
  some, List, [], ◌∷◌, ltb, leb, ◌==◌, if◌then◌else◌, length, take, drop, text_eq, Result, ok, err,
  ◌>>=◌, ◌>>◌, reject_if,
}
use voice_asset_server.Text.{Bytes, codes}

-- `out_of_fuel` is no error of the source: the loop is run with a bound on its rounds.
pub data Error : Type 0 where
  invalid_wav out_of_fuel : Error

pub data Codec : Type 0 where
  pcm_u8 pcm_s16le pcm_s24le pcm_s32le pcm_f32le pcm_f64le : Codec

pub record Metadata : Type 0 where
  pub codec : Codec
  pub sample_rate : ℕ
  pub channels : ℕ
  pub bitrate : ℕ
  pub duration_ms : ℕ
  pub data_bytes : ℕ

pub record WavFormat : Type 0 where
  pub codec : Codec
  pub channels : ℕ
  pub sample_rate : ℕ
  pub byte_rate : ℕ
  pub block_align : ℕ

abbrev pub u64 : ℕ → ℕ
u64 n = n % 2 ^ 64

abbrev pub wav_header_size : ℕ
wav_header_size = 12

abbrev pub chunk_header_size : ℕ
chunk_header_size = 8

-- binary.LittleEndian; the callers pass slices that are long enough.
unfoldable pub uint16 : Bytes → ℕ
uint16 (a ∷ b ∷ s) = a + b * 256
uint16 s = 0

unfoldable pub uint32 : Bytes → ℕ
uint32 (a ∷ b ∷ c ∷ d ∷ s) = a + b * 256 + c * 65536 + d * 16777216
uint32 s = 0

-- `readAt`: all of the bytes, or an error.
unfoldable pub read_at : Bytes → ℕ → ℕ → Result Error Bytes
read_at file count offset =
    let read = take count (drop offset file) in
    if length read == count then ok read else err invalid_wav

-- `wavCodec`
unfoldable pub wav_codec : ℕ → ℕ → Option Codec
wav_codec tag bits =
    if tag == 1
    then (if bits == 8
        then some pcm_u8
        else if bits == 16
        then some pcm_s16le
        else if bits == 24
        then some pcm_s24le
        else if bits == 32
        then some pcm_s32le
        else none)
    else if tag == 3
    then (if bits == 32 then some pcm_f32le else if bits == 64 then some pcm_f64le else none)
    else none

-- The tests that follow on the codec. The products are of 32 and of 64 bits.
check_rates : ℕ → ℕ → ℕ → ℕ → ℕ → Option Codec → Result Error WavFormat
check_rates channels rate byte_rate block_align bits none = err invalid_wav
check_rates channels rate byte_rate block_align bits (some codec) =
    let expected = channels * bits % 2 ^ 32 / 8 in
    if expected == 0 || ltb 65535 expected || not (block_align == expected)
    then err invalid_wav
    else if ltb 4294967295 (u64 (rate * expected)) || not (byte_rate == u64 (rate * expected))
    then err invalid_wav
    else ok (record {
      codec = codec;
      channels = channels;
      sample_rate = rate;
      byte_rate = byte_rate;
      block_align = block_align;
    })

-- `parseWAVFormat`, on the 16 bytes of the chunk.
unfoldable pub parse_wav_format : Bytes → Result Error WavFormat
unfolding check_rates
parse_wav_format s =
    let channels = uint16 (drop 2 s) in
    let rate = uint32 (drop 4 s) in
    let bits = uint16 (drop 14 s) in
    if channels == 0 || ltb 64 channels
    then err invalid_wav
    else if ltb rate 1000 || ltb 768000 rate
    then err invalid_wav
    else check_rates channels rate (uint32 (drop 8 s)) (uint16 (drop 12 s)) bits
        (wav_codec (uint16 s) bits)

-- `format` with `foundFmt`, and `dataBytes` with `foundData`.
pub record Found : Type 0 where
  pub format : Option WavFormat
  pub data_size : Option ℕ

abbrev is_found {ℓ} : {A : Type ℓ} → Option A → Bool
is_found none = false
is_found (some a) = true

-- The switch on the chunk's name.
take_chunk : Bytes → Bytes → ℕ → ℕ → Found → Result Error Found
take_chunk file id size start found =
    if text_eq id (codes "fmt ")
    then (do
      reject_if (is_found found.format) invalid_wav
      reject_if (ltb size 16) invalid_wav
      bytes ← read_at file 16 start
      parsed ← parse_wav_format bytes
      ok (record found { format = some parsed }))
    else if text_eq id (codes "data")
    then (do
      reject_if (is_found found.data_size) invalid_wav
      ok (record found { data_size = some size }))
    else ok found

-- One round of the loop: the next offset, and what is found.
next_chunk : Bytes → ℕ → ℕ → Found → Result Error (ℕ × Found)
unfolding take_chunk
next_chunk file end offset found = do
  reject_if (ltb (end - offset) chunk_header_size) invalid_wav
  header ← read_at file chunk_header_size offset
  let size = uint32 (drop 4 header)
  let start = u64 (offset + chunk_header_size)
  let data_end = u64 (start + size)
  reject_if (ltb data_end start || ltb end data_end) invalid_wav
  let padded_end = u64 (data_end + size % 2)
  reject_if (ltb padded_end data_end || ltb end padded_end) invalid_wav
  found' ← take_chunk file (take 4 header) size start found
  ok (padded_end, found')

walk : ℕ → Bytes → ℕ → ℕ → Found → Result Error Found
unfolding next_chunk
walk zero file end offset found = err out_of_fuel
walk (suc fuel) file end offset found = elim (ltb offset end) [
  | true ↦ (do
    (offset', found') ← next_chunk file end offset found
    walk fuel file end offset' found')
  | false ↦ ok found
]

-- What follows the loop.
summarise : Option WavFormat → Option ℕ → Result Error Metadata
summarise (some f) (some size) =
    let frames = size / f.block_align in
    if not (size % f.block_align == 0)
    then err invalid_wav
    else ok (record {
      codec = f.codec;
      sample_rate = f.sample_rate;
      channels = f.channels;
      bitrate = u64 (f.byte_rate * 8);
      duration_ms = frames / f.sample_rate * 1000 + frames % f.sample_rate * 1000 / f.sample_rate;
      data_bytes = size;
    })
summarise format size = err invalid_wav

-- The checks before the loop: where the chunks end.
check_header : Bytes → ℕ → Result Error ℕ
check_header file size = do
  reject_if (ltb size wav_header_size) invalid_wav
  header ← read_at file wav_header_size 0
  reject_if (not (text_eq (take 4 header) (codes "RIFF"))) invalid_wav
  reject_if (not (text_eq (drop 8 header) (codes "WAVE"))) invalid_wav
  let end = uint32 (drop 4 header) + 8
  reject_if (ltb end wav_header_size) invalid_wav
  reject_if (not (end == size)) invalid_wav
  ok end

-- `ProbeWAV`
unfoldable pub probe_wav : Bytes → ℕ → Result Error Metadata
unfolding check_header walk summarise
probe_wav file size = do
  end ← check_header file size
  found ← walk (suc end) file end wav_header_size (record { format = none; data_size = none })
  summarise found.format found.data_size
