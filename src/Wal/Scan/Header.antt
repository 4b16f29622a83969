-- ===== src/Wal/Scan/Header.antt =====
-- The repair of a segment whose header was not written to its end.
use cere_db.Base.{
  ℕ, zero, suc, ◌≤◌, ◌<◌, ◌^◌, ◌≡◌, refl, sym, ap, ◌∙◌, true, false, ltb, Bool-cases, inl, inr, [],
  ◌∷◌, append-nil, length, length-take, take, arith,
}
use cere_db.Error.{ok}
use cere_db.Bytes.{Bytes}
use cere_db.Key.{key_eq}
use cere_db.Key.Order.{key_eq_iff}
use cere_db.Wal.{Analysis, wal_header_size, wal_version}
use cere_db.Wal.Header.{default_header, encode, length-encode_header}
use cere_db.Wal.Log.{log_bytes, accept_frames}
use cere_db.Wal.Scan.{
  repair, starts_with, complete_header, with_header, finish, scan_segment_with_tail_handling,
}
use cere_db.Wal.Scan.Segment.{segment_bytes, scan_segment-whole}

key_eq_refl : (bs : Bytes) → key_eq bs bs ≡ true
key_eq_refl bs = (key_eq_iff bs bs).1 refl

take_more : (n : ℕ) (bs : Bytes) → length bs ≤ n → take n bs ≡ bs
take_more zero [] h = refl
take_more zero (b ∷ bs) h = absurd (omega (arith, h))
take_more (suc n) [] h = refl
take_more (suc n) (b ∷ bs) h = ap (λ xs. b ∷ xs) (take_more n bs (omega (arith, h)))

module _ (crc32 : Bytes → ℕ) (crc32_u32 : (bs : Bytes) → crc32 bs < 2 ^ 32) where
  abbrev header : Bytes
  header = encode crc32 default_header

  segment_bytes-empty : segment_bytes crc32 crc32_u32 [] ≡ header
  unfolding segment_bytes log_bytes
  segment_bytes-empty = append-nil header

  with_header-short :
      (n : ℕ) (a : Analysis) → n < 36 → with_header crc32 repair a (take n header) ≡ ok header
  unfolding with_header complete_header starts_with
  with_header-short n a h =
      let size : length (take n header) ≡ n =
        omega (arith, length-take n header, length-encode_header crc32, h) in
      let short : ltb (length (take n header)) wal_header_size ≡ true = ground (arith, size, h) in
      let starts : key_eq (take (length (take n header)) header) (take n header) ≡ true =
        ap (λ k. key_eq (take k header) (take n header)) size ∙ key_eq_refl (take n header) in
      rw (short, starts) refl

  with_header-whole : (a : Analysis) → with_header crc32 repair a header ≡ ok header
  unfolding with_header
  with_header-whole a =
      let long : ltb (length header) wal_header_size ≡ false =
        ground (arith, length-encode_header crc32) in
      rw long refl

  -- It is an empty segment then.
  pub scan_segment-header :
      (n segment_id : ℕ) (a : Analysis)
      → scan_segment_with_tail_handling crc32 segment_id (take n header) repair a
        ≡ ok (record {
          version = wal_version;
          analysis = a;
          file = segment_bytes crc32 crc32_u32 [];
        })
  unfolding scan_segment_with_tail_handling finish accept_frames
  scan_segment-header n segment_id a =
      let whole : scan_segment_with_tail_handling crc32 segment_id header repair a ≡ _ =
        ap (λ bs. scan_segment_with_tail_handling crc32 segment_id bs repair a)
          (sym segment_bytes-empty)
        ∙ scan_segment-whole crc32 crc32_u32 segment_id a a [] tt refl repair in
      elim (Bool-cases (ltb n 36)) [
        | inl t ↦ rw (with_header-short n a (ground (arith, t))) (rw (with_header-whole a) at whole)
        | inr f ↦ rw (take_more n header (ground (arith, f, length-encode_header crc32))) whole
      ]
