-- ===== src/Docker/Logs.antt =====
-- demuxLogs of backend/internal/docker/engine.go: the frames of a container's log.
mod Tests
use compose_manager.Base.{
  if_cases, text_lt, put_sorted, sort_by, All-sort_by, Never, Exists, Exists-mono, Exists-of_any, ℕ,
  zero, suc, ◌+◌, ◌-◌,
}
use compose_manager.Base.{◌*◌, ◌/◌, ◌%◌, ◌^◌, ◌≤◌, ◌<◌, ◌≡◌, refl, sym, ap, ◌∙◌, ◌≢◌, ◌↔◌, ◌⊎◌}
use compose_manager.Base.{
  inl, inr, Bool, true, false, not, ◌&&◌, ◌||◌, Option, none, some, List, [], ◌∷◌,
}
use compose_manager.Base.{
  ◌++◌, map, arith, ltb, leb, ◌==◌, if◌then◌else◌, ==_iff, Bool-cases, Option-cases, and_true,
  and_intro, or_false, length,
}
use compose_manager.Base.{
  take, drop, all, any, filter, length-append, length-take, length-drop, take-append-drop, All,
  All-append, All-mono, All-filter, All-filter_test,
}
use compose_manager.Base.{
  All-of_all, length-filter, All-of_any, Text, codes, same, same_iff, same_refl, same_sym, is_empty,
  has_prefix, contains, has_byte, split,
}
use compose_manager.Base.{
  join, is_space, trim_left, trim_right, trim_space, lower_byte, to_lower, last_piece, but_last,
  Map, lookup, insert, remove, purge,
}
use compose_manager.Base.{
  lookup-insert, lookup-remove, Unique, Unique-insert, Unique-remove, unless, lookup-purge,
  Unique-purge,
}

abbrev is_stream : ℕ → Bool
is_stream s = (s == 1) || (s == 2)

-- `binary.BigEndian.Uint32`.
abbrev pub u32 : ℕ → ℕ → ℕ → ℕ → ℕ
u32 a b c d = a * 16777216 + b * 65536 + c * 256 + d

-- The loop, in as many rounds as there are bytes; each takes a header of eight bytes.
unfoldable pub demux_frames : ℕ → Text → Text
demux_frames zero bytes = []
demux_frames (suc fuel) (s ∷ x ∷ y ∷ z ∷ a ∷ b ∷ c ∷ d ∷ rest) =
    let later = demux_frames fuel (drop (u32 a b c d) rest) in
    if not (is_stream s) || ltb (length rest) (u32 a b c d)
    then []
    else take (u32 a b c d) rest ++ later
demux_frames (suc fuel) _ = []

abbrev starts_frame : Text → Bool
starts_frame [] = false
starts_frame (s ∷ bytes) = is_stream s

unfoldable pub demux_logs : Text → Text
demux_logs bytes =
    if ltb (length bytes) 8 || not (starts_frame bytes)
    then bytes
    else demux_frames (length bytes) bytes

-- A frame: its stream and what was written.
pub record Frame : Type 0 where
  pub stream : ℕ
  pub payload : Text

-- What Docker sends for some frames.
unfoldable pub encode_frames : List Frame → Text
encode_frames [] = []
encode_frames (f ∷ fs) =
    let n = length f.payload in
    f.stream
    ∷ 0
    ∷ 0
    ∷ 0
    ∷ n / 16777216
    ∷ n / 65536 % 256
    ∷ n / 256 % 256
    ∷ n % 256
    ∷ (f.payload ++ encode_frames fs)

unfoldable pub payloads : List Frame → Text
payloads [] = []
payloads (f ∷ fs) = f.payload ++ payloads fs

-- Standard output or standard error, with a length that its four bytes can hold.
abbrev pub IsFrame : Frame → Type 0
IsFrame f = (is_stream f.stream ≡ true) × (length f.payload < 4294967296)

take-append : (p t : Text) → take (length p) (p ++ t) ≡ p
take-append [] t = refl
take-append (c ∷ p) t = ap (λ s. c ∷ s) (take-append p t)

drop-append : (p t : Text) → drop (length p) (p ++ t) ≡ t
drop-append [] t = refl
drop-append (c ∷ p) t = drop-append p t

u32_digits :
    (n : ℕ) → n < 4294967296 → u32 (n / 16777216) (n / 65536 % 256) (n / 256 % 256) (n % 256) ≡ n
u32_digits n h = omega arith

demux_frames-encode :
    (fs : List Frame) (fuel : ℕ)
    → All IsFrame fs
    → length fs ≤ fuel
    → demux_frames fuel (encode_frames fs) ≡ payloads fs
unfolding demux_frames encode_frames payloads
demux_frames-encode [] zero h le = refl
demux_frames-encode [] (suc fuel) h le = refl
demux_frames-encode (f ∷ fs) zero h le = ground arith
demux_frames-encode (f ∷ fs) (suc fuel) ((s, n), h) le =
    let later = demux_frames-encode fs fuel h (omega arith) in
    let fits : ltb (length (f.payload ++ encode_frames fs)) (length f.payload) ≡ false =
      ground (arith, length-append f.payload (encode_frames fs)) in
    rw
      (
        u32_digits (length f.payload) n,
        s,
        fits,
        take-append f.payload (encode_frames fs),
        drop-append f.payload (encode_frames fs),
        later,
      )
      refl

length-encode : (fs : List Frame) → length fs ≤ length (encode_frames fs)
unfolding encode_frames
length-encode [] = omega arith
length-encode (f ∷ fs) = omega (arith, length-append f.payload (encode_frames fs), length-encode fs)

-- Of a log that Docker sends as frames of standard output and standard error, each shorter than 2^32
-- bytes, the panel shows exactly what was written, in its order.
pub demux_logs-encode :
    (fs : List Frame) → All IsFrame fs → demux_logs (encode_frames fs) ≡ payloads fs
unfolding demux_logs encode_frames payloads
demux_logs-encode [] h = refl
demux_logs-encode (f ∷ fs) ((s, n), h) =
    let sent = encode_frames (f ∷ fs) in
    if_cases (λ x. x ≡ payloads (f ∷ fs)) (ltb (length sent) 8 || not (starts_frame sent)) sent
      (demux_frames (length sent) sent) (λ e. ground (arith, s, e))
      (λ e. demux_frames-encode (f ∷ fs) (length sent) ((s, n), h) (length-encode (f ∷ fs)))
