-- ===== src/Audio/Wav/Bounds.antt =====
-- The loop over the chunks ends, and what the metadata of a file satisfy.
use voice_asset_server.Base.{
  ℕ, zero, suc, ◌+◌, ◌^◌, ◌≤◌, ◌<◌, ◌≡◌, refl, inl, inr, Option, none, some, arith, ltb, Result, ok,
  err, ◌>>=◌, Bool-cases, ltb→lt,
}
use voice_asset_server.Text.{Bytes}
use voice_asset_server.Audio.Wav.{
  Error, invalid_wav, Codec, WavFormat, Found, read_at, check_rates, parse_wav_format, take_chunk,
  next_chunk, walk, summarise, probe_wav, check_header,
}

read_at-err : (file : Bytes) (n o : ℕ) (e : Error) → read_at file n o ≡ err e → e ≡ invalid_wav
unfolding read_at
read_at-err file n o e h = ground arith

check_rates-err :
    (c r b a w : ℕ) (o : Option Codec) (e : Error)
    → check_rates c r b a w o ≡ err e
    → e ≡ invalid_wav
unfolding check_rates
check_rates-err c r b a w none e h = ground arith
check_rates-err c r b a w (some k) e h = ground arith

parse_wav_format-err : (s : Bytes) (e : Error) → parse_wav_format s ≡ err e → e ≡ invalid_wav
unfolding parse_wav_format
parse_wav_format-err s e h = grind (arith, check_rates-err)

take_chunk-err :
    (file id : Bytes) (size start : ℕ) (found : Found) (e : Error)
    → take_chunk file id size start found ≡ err e
    → e ≡ invalid_wav
unfolding take_chunk
take_chunk-err file id size start found e h = grind (arith, read_at-err, parse_wav_format-err)

-- A round that fails gives `invalid_wav`.
next_chunk-err :
    (file : Bytes) (end offset : ℕ) (found : Found) (e : Error)
    → next_chunk file end offset found ≡ err e
    → e ≡ invalid_wav
unfolding next_chunk
next_chunk-err file end offset found e h = grind (arith, read_at-err, take_chunk-err)

-- Every round goes forward, and stays within the file.
next_chunk-advances :
    (file : Bytes) (end offset offset' : ℕ) (found found' : Found)
    → next_chunk file end offset found ≡ ok (offset', found')
    → offset < end
    → end < 2 ^ 63
    → (offset < offset') × (offset' ≤ end)
unfolding next_chunk
next_chunk-advances file end offset offset' found found' h k l = ground arith

-- What the loop may fail with, on this fuel.
abbrev EndsWell : ℕ → Bytes → ℕ → Type 0
EndsWell fuel file end =
    (offset : ℕ) (found : Found) (e : Error)
    → offset ≤ end
    → end < offset + fuel
    → walk fuel file end offset found ≡ err e
    → e ≡ invalid_wav

round-err :
    (fuel : ℕ) (file : Bytes) (end offset : ℕ) (found : Found) (e : Error)
    (r : Result Error (ℕ × Found))
    → next_chunk file end offset found ≡ r
    → offset < end
    → end < 2 ^ 63
    → end < offset + suc fuel
    → EndsWell fuel file end
    → (r >>= λ (q : ℕ × Found). walk fuel file end q.0 q.1) ≡ err e
    → e ≡ invalid_wav
round-err fuel file end offset found e (err x) n k small enough rest h =
    ground (arith, next_chunk-err file end offset found x n)
round-err fuel file end offset found e (ok (o, f)) n k small enough rest h =
    let (forward, within) = next_chunk-advances file end offset o found f n k small in
    rest o f e within (omega arith) h

walk-err : (fuel : ℕ) (file : Bytes) (end : ℕ) → end < 2 ^ 63 → EndsWell fuel file end
unfolding walk
walk-err zero file end small offset found e within enough h = absurd (omega arith)
walk-err (suc fuel) file end small offset found e within enough h =
    elim (Bool-cases (ltb offset end)) [
      | inl more ↦
          round-err fuel file end offset found e _ refl (ltb→lt _ _ more) small enough
            (walk-err fuel file end small) (rw (more, walk) at h)
      | inr done ↦ (let k = rw (done, walk) at h in absurd (ground arith))
    ]

summarise-err :
    (f : Option WavFormat) (d : Option ℕ) (e : Error) → summarise f d ≡ err e → e ≡ invalid_wav
unfolding summarise
summarise-err none d e h = ground arith
summarise-err (some f) none e h = ground arith
summarise-err (some f) (some d) e h = ground arith

check_header-lem :
    (file : Bytes) (size end : ℕ) → check_header file size ≡ ok end → (12 ≤ end) × (end ≡ size)
unfolding check_header
check_header-lem file size end h = ground arith

check_header-err :
    (file : Bytes) (size : ℕ) (e : Error) → check_header file size ≡ err e → e ≡ invalid_wav
unfolding check_header
check_header-err file size e h = grind (arith, read_at-err)

bind_err :
    {A B : Type 0} (x : Result Error A) (f : A → Result Error B) (e : Error)
    → (x >>= f) ≡ err e
    → ((a : A) → x ≡ ok a → f a ≡ err e → e ≡ invalid_wav)
    → ((y : Error) → x ≡ err y → y ≡ invalid_wav)
    → e ≡ invalid_wav
bind_err (ok a) f e h k l = k a refl h
bind_err (err y) f e h k l = ground (arith, l y refl)

-- The bound on the rounds is enough.
pub probe_wav-err :
    (file : Bytes) (size : ℕ) (e : Error)
    → size < 2 ^ 63
    → probe_wav file size ≡ err e
    → e ≡ invalid_wav
unfolding probe_wav
probe_wav-err file size e small h =
    bind_err (check_header file size) _ e h
      (λ end made k.
        let (from, same) = check_header-lem file size end made in
        bind_err (walk (suc end) file end 12 (record { format = none; data_size = none })) _ e k
          (λ found walked l. summarise-err found.format found.data_size e l)
          (λ y l.
            walk-err (suc end) file end (omega arith) 12
              (record { format = none; data_size = none }) y from (omega arith) l))
      (λ y k. check_header-err file size y k)
