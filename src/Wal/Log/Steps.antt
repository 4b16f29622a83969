-- ===== src/Wal/Log/Steps.antt =====
-- Frames that are accepted one after the other, with what holds between them.
use mathlib.Core.Path.{subst}
use cere_db.Base.{ℕ, ◌+◌, ◌<◌, ◌^◌, ◌≡◌, refl, sym, ap, List, [], ◌∷◌, ◌++◌, length, arith}
use cere_db.Error.{ok}
use cere_db.Bytes.{Bytes}
use cere_db.Wal.{Frame, Analysis}
use cere_db.Wal.Codec.{frame_body, frame_checksum}
use cere_db.Wal.Recovery.{accept}
use cere_db.Wal.Scan.{position_of}
use cere_db.Wal.Log.{log_bytes, frame_size, accept_frames, length-log_bytes_cons}

module _ (crc32 : Bytes → ℕ) (crc32_u32 : (bs : Bytes) → crc32 bs < 2 ^ 32) where
  abbrev pub AcceptAt : ℕ → Analysis → ℕ → Frame → Analysis → Type 0
  AcceptAt segment_id a offset f b =
      accept a f (frame_checksum crc32 f.lsn (frame_body f))
        (position_of segment_id a offset (frame_size crc32 crc32_u32 f))
      ≡ ok b

  -- The frames lead from `a` to `b`, and `P` holds before and after each.
  abbrev pub Steps : (Analysis → Type 0) → ℕ → Analysis → ℕ → List Frame → Analysis → Type 0
  Steps P segment_id a offset [] b = P a × (a ≡ b)
  Steps P segment_id a offset (f ∷ fs) b =
      P a
      × (c : Analysis) × AcceptAt segment_id a offset f c
      × Steps P segment_id c (offset + frame_size crc32 crc32_u32 f) fs b

  pub Steps-map :
      (P Q : Analysis → Type 0) (segment_id : ℕ) (a b : Analysis) (offset : ℕ) (fs : List Frame)
      → ((x : Analysis) → P x → Q x)
      → Steps P segment_id a offset fs b
      → Steps Q segment_id a offset fs b
  Steps-map P Q segment_id a b offset [] g h = (g a h.0, h.1)
  Steps-map P Q segment_id a b offset (f ∷ fs) g (p, c, e, s) =
      (g a p, c, e, Steps-map P Q segment_id c b (offset + frame_size crc32 crc32_u32 f) fs g s)

  there :
      (offset : ℕ) (f : Frame) (fs : List Frame)
      → offset + frame_size crc32 crc32_u32 f + length (log_bytes crc32 crc32_u32 fs)
        ≡ offset + length (log_bytes crc32 crc32_u32 (f ∷ fs))
  there offset f fs = omega (arith, length-log_bytes_cons crc32 crc32_u32 f fs)

  pub Steps-append :
      (P : Analysis → Type 0) (segment_id : ℕ) (a b c : Analysis) (offset : ℕ) (fs gs : List Frame)
      → Steps P segment_id a offset fs b
      → Steps P segment_id b (offset + length (log_bytes crc32 crc32_u32 fs)) gs c
      → Steps P segment_id a offset (fs ++ gs) c
  Steps-append P segment_id a b c offset [] gs h k =
      let here : offset + length (log_bytes crc32 crc32_u32 []) ≡ offset =
        unfold log_bytes in omega arith in
      subst (λ x. Steps P segment_id x offset gs c) (sym h.1) (rw here at k)
  Steps-append P segment_id a b c offset (f ∷ fs) gs (p, d, e, s) k = (
    p,
    d,
    e,
    Steps-append P segment_id d b c (offset + frame_size crc32 crc32_u32 f) fs gs s
        (subst (λ n. Steps P segment_id b n gs c) (sym (there offset f fs)) k),
  )

  pub Steps-accept :
      (P : Analysis → Type 0) (segment_id : ℕ) (a b : Analysis) (offset : ℕ) (fs : List Frame)
      → Steps P segment_id a offset fs b
      → (accept_frames crc32 crc32_u32 segment_id a offset fs ≡ ok b) × P b
  unfolding accept_frames
  Steps-accept P segment_id a b offset [] h = (ap ok h.1, subst P h.1 h.0)
  Steps-accept P segment_id a b offset (f ∷ fs) (p, c, e, s) =
      let (t, q) = Steps-accept P segment_id c b (offset + frame_size crc32 crc32_u32 f) fs s in
      (rw e t, q)

  -- The first frames are accepted too.
  pub Steps-prefix :
      (P : Analysis → Type 0) (segment_id : ℕ) (a b : Analysis) (offset : ℕ) (gs hs : List Frame)
      → Steps P segment_id a offset (gs ++ hs) b
      → (c : Analysis) × (accept_frames crc32 crc32_u32 segment_id a offset gs ≡ ok c) × P c
  unfolding accept_frames
  Steps-prefix P segment_id a b offset [] [] h = (a, refl, h.0)
  Steps-prefix P segment_id a b offset [] (f ∷ hs) h = (a, refl, h.0)
  Steps-prefix P segment_id a b offset (f ∷ gs) hs (p, c, e, s) =
      let (d, t, q) =
        Steps-prefix P segment_id c b (offset + frame_size crc32 crc32_u32 f) gs hs s in
      (d, rw e t, q)
