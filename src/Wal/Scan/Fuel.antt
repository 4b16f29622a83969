-- ===== src/Wal/Scan/Fuel.antt =====
-- The loops of a scan, and the fuel that is enough for them.
use cere_db.Base.{
  ℕ, zero, suc, ◌+◌, ◌<◌, ◌≡◌, refl, ap, ◌∙◌, ◌==◌, ◌++◌, Bool-cases, inl, inr, Option-cases, some,
  [], ◌∷◌, length, drop, arith,
}
use cere_db.Error.{Result, Result-cases, ok, err}
use cere_db.Bytes.{Bytes}
use cere_db.Wal.{Analysis}
use cere_db.Wal.Recovery.{accept}
use cere_db.Wal.Scan.{position_of, next_frame, scan_frames, decode_legacy, scan_legacy, is_eof}
use cere_db.Wal.Scan.Left.{next_frame-left, decode_legacy-left}

module _ (crc32 : Bytes → ℕ) where
  -- With fuel above the length of the rest, the loop ends.
  scan_frames-ends :
      (n segment_id : ℕ) (a : Analysis) (offset : ℕ) (rest : Bytes)
      → length rest < n
      → (end : Result (Analysis × ℕ)) × (scan_frames crc32 n segment_id a offset rest ≡ some end)
  unfolding scan_frames
  scan_frames-ends zero segment_id a offset rest h = absurd (omega (arith, h))
  scan_frames-ends (suc n) segment_id a offset rest h =
      elim (Result-cases (next_frame crc32 rest)) [
        | inr (e, q) ↦ (err e, rw (q, scan_frames) refl)
        | inl (o, q) ↦ elim (Option-cases o) [
          | inl z ↦ (ok (a, offset), rw (q, scan_frames, z) refl)
          | inr (r, s) ↦
              let read : next_frame crc32 rest ≡ ok (some r) = q ∙ ap (λ x. ok x) s in
              let less = next_frame-left crc32 rest r read in
              elim (Result-cases
                (accept a r.frame r.checksum (position_of segment_id a offset r.size))) [
                  | inr (e, x) ↦ (err e, rw (read, scan_frames, x) refl)
                  | inl (b, x) ↦ elim (Bool-cases (offset + r.size == offset)) [
                    | inl t ↦ (ok (b, offset + r.size), rw (read, scan_frames, x, t) refl)
                    | inr f ↦
                        let (end, ends) =
                          scan_frames-ends n segment_id b (offset + r.size) r.left
                            (omega (arith, less, h)) in
                        (end, rw (read, scan_frames, x, f) ends)
                  ]
                ]
        ]
      ]

  -- Any fuel above the length of the rest gives the same.
  scan_frames_enough_fuel :
      (n m segment_id : ℕ) (a : Analysis) (offset : ℕ) (rest : Bytes)
      → length rest < n
      → length rest < m
      → scan_frames crc32 n segment_id a offset rest ≡ scan_frames crc32 m segment_id a offset rest
  unfolding scan_frames
  scan_frames_enough_fuel zero m segment_id a offset rest h k = absurd (omega (arith, h))
  scan_frames_enough_fuel (suc n) zero segment_id a offset rest h k = absurd (omega (arith, k))
  scan_frames_enough_fuel (suc n) (suc m) segment_id a offset rest h k =
      elim (Result-cases (next_frame crc32 rest)) [
        | inr (e, q) ↦ rw (q, scan_frames) refl
        | inl (o, q) ↦ elim (Option-cases o) [
          | inl z ↦ rw (q, scan_frames, z) refl
          | inr (r, s) ↦
              let read : next_frame crc32 rest ≡ ok (some r) = q ∙ ap (λ x. ok x) s in
              let less = next_frame-left crc32 rest r read in
              elim (Result-cases
                (accept a r.frame r.checksum (position_of segment_id a offset r.size))) [
                  | inr (e, x) ↦ rw (read, scan_frames, x) refl
                  | inl (b, x) ↦ elim (Bool-cases (offset + r.size == offset)) [
                    | inl t ↦ rw (read, scan_frames, x, t) refl
                    | inr f ↦
                        rw (read, scan_frames, x, f)
                          (scan_frames_enough_fuel n m segment_id b (offset + r.size) r.left
                            (omega (arith, less, h)) (omega (arith, less, k)))
                  ]
                ]
        ]
      ]

  scan_legacy-ends :
      (n : ℕ) (a : Analysis) (offset : ℕ) (rest : Bytes)
      → length rest < n
      → (end : Result (Analysis × ℕ)) × (scan_legacy crc32 n a offset rest ≡ some end)
  unfolding scan_legacy
  scan_legacy-ends zero a offset rest h = absurd (omega (arith, h))
  scan_legacy-ends (suc n) a offset rest h = elim (Result-cases (decode_legacy crc32 rest)) [
    | inr (e, q) ↦ elim (Bool-cases (is_eof e)) [
      | inl t ↦ (ok (a, offset), rw (q, scan_legacy, t) refl)
      | inr f ↦ (err e, rw (q, scan_legacy, f) refl)
    ]
    | inl ((r, size), q) ↦
        let b : Analysis = record a { legacy = a.legacy ++ r ∷ [] } in
        elim (Bool-cases (offset + size == offset)) [
          | inl t ↦ (ok (b, offset + size), rw (q, scan_legacy, t) refl)
          | inr f ↦
              let (end, ends) =
                scan_legacy-ends n b (offset + size) (drop size rest)
                  (omega (arith, decode_legacy-left crc32 rest r size q, h)) in
              (end, rw (q, scan_legacy, f) ends)
        ]
  ]

  scan_legacy_enough_fuel :
      (n m : ℕ) (a : Analysis) (offset : ℕ) (rest : Bytes)
      → length rest < n
      → length rest < m
      → scan_legacy crc32 n a offset rest ≡ scan_legacy crc32 m a offset rest
  unfolding scan_legacy
  scan_legacy_enough_fuel zero m a offset rest h k = absurd (omega (arith, h))
  scan_legacy_enough_fuel (suc n) zero a offset rest h k = absurd (omega (arith, k))
  scan_legacy_enough_fuel (suc n) (suc m) a offset rest h k =
      elim (Result-cases (decode_legacy crc32 rest)) [
        | inr (e, q) ↦ rw (q, scan_legacy) refl
        | inl ((r, size), q) ↦
            let less = decode_legacy-left crc32 rest r size q in
            elim (Bool-cases (offset + size == offset)) [
              | inl t ↦ rw (q, scan_legacy, t) refl
              | inr f ↦
                  rw (q, scan_legacy, f)
                    (scan_legacy_enough_fuel n m (record a { legacy = a.legacy ++ r ∷ [] })
                      (offset + size) (drop size rest) (omega (arith, less, h))
                      (omega (arith, less, k)))
            ]
      ]

  -- The loops of a scan over the frames and over the records of the old format end before their fuel
  -- does: each has a result, an analysis with an offset or an error, and with any fuel above the number
  -- of bytes that are left it ends with this result.
  pub scan_loops_fuel :
      (segment_id : ℕ) (a : Analysis) (offset : ℕ) (rest : Bytes)
      → ((end : Result (Analysis × ℕ)) × ((n : ℕ)
            → length rest < n
            → scan_frames crc32 n segment_id a offset rest ≡ some end))
        × ((end : Result (Analysis × ℕ)) × ((n : ℕ)
              → length rest < n
              → scan_legacy crc32 n a offset rest ≡ some end))
  scan_loops_fuel segment_id a offset rest =
      let less : length rest < suc (length rest) = omega arith in
      let (end, ends) = scan_frames-ends (suc (length rest)) segment_id a offset rest less in
      let (old, old_ends) = scan_legacy-ends (suc (length rest)) a offset rest less in
      (
        (
          end,
          λ n h.
              scan_frames_enough_fuel n (suc (length rest)) segment_id a offset rest h less ∙ ends,
        ),
        (old, λ n h. scan_legacy_enough_fuel n (suc (length rest)) a offset rest h less ∙ old_ends),
      )
