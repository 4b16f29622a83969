-- ===== src/Wal/Log.antt =====
-- The log as a list of frames: the bytes of frames, and their acceptance one after the other.
pub mod Steps
use cere_db.Base.{
  ℕ, zero, suc, ◌+◌, ◌-◌, ◌≤◌, ◌<◌, ◌^◌, ◌≡◌, refl, sym, ap, ◌∙◌, ltb, ◌==◌, true, false,
  Bool-cases, inl, inr, some, none, List, [], ◌∷◌, ◌++◌, append_assoc, append-nil, length,
  length-append, length-take, take, arith, All,
}
use cere_db.Error.{Result, ok, err, ◌>>=◌, bind-ok_lem, eq_of_ok}
use cere_db.Bytes.{Bytes}
use cere_db.Bytes.Slices.{take-append_ge, take-append_le, take-nil}
use cere_db.Wal.{Frame, FramePosition, Analysis, frame_header_size}
use cere_db.Wal.Codec.{frame_body, frame_checksum}
use cere_db.Wal.Codec.RoundTrip.{FitsFrame}
use cere_db.Wal.Recovery.{accept}
use cere_db.Wal.Scan.{scan_frames, position_of, next_frame}
use cere_db.Wal.Scan.Frames.{
  frame_bytes, length-frame_bytes, read_of, next_frame-whole, next_frame-torn,
}

module _ (crc32 : Bytes → ℕ) (crc32_u32 : (bs : Bytes) → crc32 bs < 2 ^ 32) where
  unfoldable pub log_bytes : List Frame → Bytes
  log_bytes [] = []
  log_bytes (f ∷ fs) = frame_bytes crc32 crc32_u32 f ++ log_bytes fs

  abbrev pub frame_size : Frame → ℕ
  frame_size f = frame_header_size + length (frame_body f)

  -- The frames from `offset` on are accepted.
  unfoldable pub accept_frames : ℕ → Analysis → ℕ → List Frame → Result Analysis
  accept_frames segment_id a offset [] = ok a
  accept_frames segment_id a offset (f ∷ fs) =
      accept a f (frame_checksum crc32 f.lsn (frame_body f))
        (position_of segment_id a offset (frame_size f))
      >>= λ b. accept_frames segment_id b (offset + frame_size f) fs

  pub log_bytes-append : (fs gs : List Frame) → log_bytes (fs ++ gs) ≡ log_bytes fs ++ log_bytes gs
  unfolding log_bytes
  log_bytes-append [] gs = refl
  log_bytes-append (f ∷ fs) gs =
      ap (λ bs. frame_bytes crc32 crc32_u32 f ++ bs) (log_bytes-append fs gs)
      ∙ sym (append_assoc (frame_bytes crc32 crc32_u32 f) (log_bytes fs) (log_bytes gs))

  pub length-log_bytes_cons :
      (f : Frame) (fs : List Frame)
      → length (log_bytes (f ∷ fs)) ≡ frame_size f + length (log_bytes fs)
  unfolding log_bytes
  length-log_bytes_cons f fs = omega (
    arith,
    length-append (frame_bytes crc32 crc32_u32 f) (log_bytes fs),
    length-frame_bytes crc32 crc32_u32 f,
  )

  pub length-le-log_bytes : (fs : List Frame) → length fs ≤ length (log_bytes fs)
  length-le-log_bytes [] = omega arith
  length-le-log_bytes (f ∷ fs) = omega (arith, length-le-log_bytes fs, length-log_bytes_cons f fs)

  pub accept_frames-append :
      (segment_id : ℕ) (a b : Analysis) (offset : ℕ) (fs gs : List Frame)
      → accept_frames segment_id a offset fs ≡ ok b
      → accept_frames segment_id a offset (fs ++ gs)
        ≡ accept_frames segment_id b (offset + length (log_bytes fs)) gs
  unfolding accept_frames
  accept_frames-append segment_id a b offset [] gs h =
      let same : a ≡ b = eq_of_ok a b h in
      let here : offset ≡ offset + length (log_bytes []) = unfold log_bytes in omega arith in
      ap (λ x. accept_frames segment_id x offset gs) same
      ∙ ap (λ n. accept_frames segment_id b n gs) here
  accept_frames-append segment_id a b offset (f ∷ fs) gs h =
      let (c, first, later) =
        bind-ok_lem
          (accept a f (frame_checksum crc32 f.lsn (frame_body f))
            (position_of segment_id a offset (frame_size f)))
          (λ x. accept_frames segment_id x (offset + frame_size f) fs) b h in
      let there : offset + frame_size f + length (log_bytes fs)
          ≡ offset + length (log_bytes (f ∷ fs)) =
        omega (arith, length-log_bytes_cons f fs) in
      rw first (
        accept_frames-append segment_id c b (offset + frame_size f) fs gs later
        ∙ ap (λ n. accept_frames segment_id b n gs) there)

  -- A scan accepts a whole frame.
  scan_frames-frame :
      (f : Frame) (fuel segment_id : ℕ) (a b : Analysis) (offset : ℕ) (rest : Bytes)
      → FitsFrame f
      → accept a f
          (frame_checksum crc32 f.lsn (frame_body f))
          (position_of segment_id a offset (frame_size f))
        ≡ ok b
      → scan_frames crc32 (suc fuel) segment_id a offset (frame_bytes crc32 crc32_u32 f ++ rest)
        ≡ scan_frames crc32 fuel segment_id b (offset + frame_size f) rest
  unfolding scan_frames
  scan_frames-frame f fuel segment_id a b offset rest fits h =
      let moves : (offset + frame_size f == offset) ≡ false = ground arith in
      rw (next_frame-whole crc32 crc32_u32 f rest fits, scan_frames, h, moves) refl

  -- A scan goes through whole frames as they are accepted.
  pub scan_frames-log_bytes :
      (fs : List Frame) (fuel segment_id : ℕ) (a b : Analysis) (offset : ℕ) (rest : Bytes)
      → All FitsFrame fs
      → accept_frames segment_id a offset fs ≡ ok b
      → scan_frames crc32 (length fs + fuel) segment_id a offset (log_bytes fs ++ rest)
        ≡ scan_frames crc32 fuel segment_id b (offset + length (log_bytes fs)) rest
  unfolding accept_frames
  scan_frames-log_bytes [] fuel segment_id a b offset rest fits h =
      let same : a ≡ b = eq_of_ok a b h in
      let here : offset ≡ offset + length (log_bytes []) = unfold log_bytes in omega arith in
      let none_read : 0 + fuel ≡ fuel = omega arith in
      let nothing : log_bytes [] ++ rest ≡ rest = unfold log_bytes in refl in
      rw (none_read, nothing)
        (ap (λ x. scan_frames crc32 fuel segment_id x offset rest) same
          ∙ ap (λ n. scan_frames crc32 fuel segment_id b n rest) here)
  scan_frames-log_bytes (f ∷ fs) fuel segment_id a b offset rest fits h =
      let (c, first, later) =
        bind-ok_lem
          (accept a f (frame_checksum crc32 f.lsn (frame_body f))
            (position_of segment_id a offset (frame_size f)))
          (λ x. accept_frames segment_id x (offset + frame_size f) fs) b h in
      let there : offset + frame_size f + length (log_bytes fs)
          ≡ offset + length (log_bytes (f ∷ fs)) =
        omega (arith, length-log_bytes_cons f fs) in
      let more : suc (length fs) + fuel ≡ suc (length fs + fuel) = omega arith in
      let parts : log_bytes (f ∷ fs) ++ rest
          ≡ frame_bytes crc32 crc32_u32 f ++ (log_bytes fs ++ rest) =
        unfold log_bytes in append_assoc (frame_bytes crc32 crc32_u32 f) (log_bytes fs) rest in
      rw (more, parts)
        (scan_frames-frame f (length fs + fuel) segment_id a c offset (log_bytes fs ++ rest) fits.0
            first
          ∙ scan_frames-log_bytes fs fuel segment_id c b (offset + frame_size f) rest fits.1 later
          ∙ ap (λ n. scan_frames crc32 fuel segment_id b n rest) there)

  -- Where a log is cut off, whole frames are left, and then less than a frame.
  pub record Cut (fs : List Frame) (n : ℕ) : Type 0 where
    pub whole : List Frame
    pub lost : List Frame
    pub torn : Bytes
    pub frames : fs ≡ whole ++ lost
    pub bytes : take n (log_bytes fs) ≡ log_bytes whole ++ torn
    pub stops : next_frame crc32 torn ≡ ok none
    pub complete : length (log_bytes fs) ≤ n → lost ≡ []

  no_frame : next_frame crc32 [] ≡ ok none
  unfolding next_frame
  no_frame = refl

  pub log_bytes-Cut : (fs : List Frame) (n : ℕ) → All FitsFrame fs → Cut fs n
  unfolding log_bytes
  log_bytes-Cut [] n fits = record {
    whole = [];
    lost = [];
    torn = [];
    frames = refl;
    bytes = take-nil n;
    stops = no_frame;
    complete = λ h. refl;
  }
  log_bytes-Cut (f ∷ fs) n fits =
      elim (Bool-cases (ltb n (length (frame_bytes crc32 crc32_u32 f)))) [
        | inl short ↦ record {
          whole = [];
          lost = f ∷ fs;
          torn = take n (frame_bytes crc32 crc32_u32 f);
          frames = refl;
          bytes =
              take-append_le n (frame_bytes crc32 crc32_u32 f) (log_bytes fs)
                (ground (arith, short));
          stops = next_frame-torn crc32 crc32_u32 f n fits.0 (ground (arith, short));
          complete = λ h. absurd (
              ground
                (arith, short, h, length-append (frame_bytes crc32 crc32_u32 f) (log_bytes fs)));
        }
        | inr long ↦
            let frame = frame_bytes crc32 crc32_u32 f in
            let ge : length frame ≤ n = ground (arith, long) in
            let c = log_bytes-Cut fs (n - length frame) fits.1 in
            record {
              whole = f ∷ c.whole;
              lost = c.lost;
              torn = c.torn;
              frames = ap (λ gs. f ∷ gs) c.frames;
              bytes =
                  take-append_ge n frame (log_bytes fs) ge
                  ∙ ap (λ bs. frame ++ bs) c.bytes
                  ∙ sym (append_assoc frame (log_bytes c.whole) c.torn);
              stops = c.stops;
              complete = λ h. c.complete (omega (arith, h, length-append frame (log_bytes fs)));
            }
      ]
