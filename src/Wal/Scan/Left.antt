-- ===== src/Wal/Scan/Left.antt =====
-- What is left behind the frame or the record that a scan has read.
use cere_db.Base.{
  ℕ, ◌+◌, ◌-◌, ◌≤◌, ◌<◌, ◌≡◌, ap, ltb, ◌==◌, Bool-cases, inl, inr, leb, some, none, length,
  length-drop, take, drop, arith,
}
use cere_db.Error.{Result-cases, ok, corrupted, bind-ok_lem, eq_of_ok, refuse-ok_lem}
use cere_db.Bytes.{Bytes, from_be_bytes}
use cere_db.Bytes.Reader.{read_be, read_exact, pure}
use cere_db.Wal.{WalRecord, frame_header_size}
use cere_db.Wal.Codec.{decode_record_type, decode_frame, decode_frame_header, verify_frame_body}
use cere_db.Wal.Scan.{
  ReadFrame, or_error, bad_size, read_body, next_frame, legacy_payload, decode_legacy,
}

not_none {ℓ} : {A : Type ℓ} {B : Type 0} (a : A) → ok none ≡ ok (some a) → B
not_none a e = absurd (ground (arith, e))

read_exact-left :
    (n : ℕ) (s : Bytes) (r : Bytes × Bytes) → read_exact n s ≡ ok r → length r.1 + n ≡ length s
unfolding read_exact
read_exact-left n s r h = elim (Bool-cases (leb n (length s))) [
  | inr f ↦ absurd (ground (arith, (rw f at h)))
  | inl t ↦
      let e : length (drop n s) ≡ length r.1 =
        ap (λ x. length x.1) (eq_of_ok (take n s, drop n s) r (rw t at h)) in
      ground (arith, t, e, length-drop n s)
]

read_be-left : (n : ℕ) (s : Bytes) (r : ℕ × Bytes) → read_be n s ≡ ok r → length r.1 + n ≡ length s
unfolding read_be cere_db.Bytes.Reader.◌>>=◌ pure
read_be-left n s r h = elim (Result-cases (read_exact n s)) [
  | inr (e, q) ↦ absurd (ground (arith, (rw (q, read_be, cere_db.Bytes.Reader.◌>>=◌) at h)))
  | inl ((buf, rest), q) ↦
      let e : length rest ≡ length r.1 =
        ap (λ x. length x.1)
          (eq_of_ok (from_be_bytes buf, rest) r
            (rw (q, read_be, cere_db.Bytes.Reader.◌>>=◌) at h)) in
      omega (arith, e, read_exact-left n s (buf, rest) q)
]

legacy_payload-left :
    (bytes : Bytes) (r : WalRecord × Bytes)
    → legacy_payload bytes ≡ ok r
    → length r.1 < length bytes
unfolding legacy_payload
legacy_payload-left bytes r h0 =
    let (t, et, h1) = bind-ok_lem (read_be 1 bytes) _ r h0 in
    let (y, ey, h2) = bind-ok_lem (decode_record_type t.0) _ r h1 in
    let (l, el, h3) = bind-ok_lem (read_be 8 t.1) _ r h2 in
    let (k, ek, h4) = bind-ok_lem (read_be 8 l.1) _ r h3 in
    let (key, ekey, h5) = bind-ok_lem (read_exact k.0 k.1) _ r h4 in
    let (v, ev, h6) = bind-ok_lem (read_be 8 key.1) _ r h5 in
    let (value, evalue, h7) = bind-ok_lem (read_exact v.0 v.1) _ r h6 in
    let e : length value.1 ≡ length r.1 = ap (λ x. length x.1) (eq_of_ok _ r h7) in
    omega (
      arith,
      e,
      read_be-left 1 bytes t et,
      read_be-left 8 t.1 l el,
      read_be-left 8 l.1 k ek,
      read_exact-left k.0 k.1 key ekey,
      read_be-left 8 key.1 v ev,
      read_exact-left v.0 v.1 value evalue,
    )

module _ (crc32 : Bytes → ℕ) where
  read_body-left :
      (lsn size : ℕ) (header rest : Bytes) (r : ReadFrame)
      → read_body crc32 lsn size header rest ≡ ok (some r)
      → length r.left ≤ length rest
  unfolding read_body
  read_body-left lsn size header rest r h =
      let (sized, h1) = refuse-ok_lem (bad_size size) _ _ (some r) h in
      elim (Bool-cases (ltb (length rest) size)) [
        | inl t ↦ not_none r (rw t at h1)
        | inr f ↦
            let (checksum, verified, h2) =
              bind-ok_lem (verify_frame_body crc32 header (take size rest)) _ (some r)
                (rw f at h1) in
            let (decoded, whole, h3) =
              bind-ok_lem
                (or_error (decode_frame lsn (take size rest)) (corrupted "Invalid WAL frame: ")) _
                (some r) h2 in
            let e : length (drop size rest) ≡ length r.left =
              ap (λ o. elim o [ some x ↦ length x.left | none ↦ length (drop size rest) ])
                (eq_of_ok _ (some r) h3) in
            omega (arith, e, length-drop size rest)
      ]

  -- Behind a frame there is less than before it.
  pub next_frame-left :
      (rest : Bytes) (r : ReadFrame)
      → next_frame crc32 rest ≡ ok (some r)
      → length r.left < length rest
  unfolding next_frame
  next_frame-left rest r h = elim (Bool-cases (ltb (length rest) frame_header_size)) [
    | inl t ↦ not_none r (rw t at h)
    | inr f ↦
        let (head, read, h1) =
          bind-ok_lem (decode_frame_header crc32 (take frame_header_size rest)) _ (some r)
            (rw f at h) in
        let le =
          read_body-left head.0 head.1 (take frame_header_size rest) (drop frame_header_size rest) r
            h1 in
        ground (arith, f, le, length-drop frame_header_size rest)
  ]

  -- So it is behind a record of the old format.
  pub decode_legacy-left :
      (bytes : Bytes) (r : WalRecord) (size : ℕ)
      → decode_legacy crc32 bytes ≡ ok (r, size)
      → length (drop size bytes) < length bytes
  unfolding decode_legacy
  decode_legacy-left bytes r size h0 =
      let (p, ep, h1) = bind-ok_lem (legacy_payload bytes) _ (r, size) h0 in
      let (c, ec, h2) = bind-ok_lem (read_be 4 p.1) _ (r, size) h1 in
      elim (Bool-cases (crc32 (take (length bytes - length p.1) bytes) == c.0)) [
        | inr f ↦ absurd (ground (arith, (rw f at h2)))
        | inl t ↦
            let e : length bytes - length c.1 ≡ size =
              ap (λ x. x.1) (eq_of_ok _ (r, size) (rw t at h2)) in
            omega (
              arith,
              e,
              length-drop size bytes,
              legacy_payload-left bytes p ep,
              read_be-left 4 p.1 c ec,
            )
      ]
