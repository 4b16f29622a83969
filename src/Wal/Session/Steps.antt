-- ===== src/Wal/Session/Steps.antt =====
-- A session from an empty directory, step by step.
use mathlib.Core.Path.{subst}
use cere_db.Base.{
  ◌+◌, not, ltb, Bool-cases, ℕ, ◌<◌, ◌^◌, ◌≡◌, refl, sym, Bool, inl, inr, Option, List, [], ◌∷◌,
  arith, All,
}
use cere_db.Error.{Result-cases, ok}
use cere_db.Bytes.{Bytes}
use cere_db.Ord.{nat_ord}
use cere_db.Wal.{Analysis}
use cere_db.Wal.Segments.{is_missing}
use cere_db.Wal.Manager.{
  interrupt_rotation, WalManager, ensure_healthy, rotate_locked, rotate_wal_file,
}
use cere_db.Wal.Recovery.Sound.{commands}
use cere_db.Wal.Logged.{IsLogged, ensure_healthy-ok}
use cere_db.Wal.Logged.Reopen.{new_inner-HasLog}
use cere_db.Wal.Logged.Rotate.{rotate_locked-IsLogged, rotate_locked-empty, interrupted-HasLog}
use cere_db.Wal.Session.{
  Use, register, append, rotate, interrupt, checkpoint, reopen, Session, open_again, use_once, run,
}
use cere_db.Wal.Session.Durable.{
  Survives, AllowsUse, IsDurable, open-IsDurable, reclaim_log-IsDurable, ensure_healthy-err,
  refused-rotate,
}
use cere_db.Wal.Session.Appends.{register-IsDurable, uses_append-IsDurable}

module _ (crc32 : Bytes → ℕ) (crc32_u32 : (bs : Bytes) → crc32 bs < 2 ^ 32) where
  -- A writer that is healthy is open.
  healthy-IsLogged :
      (s : Session) (d : IsDurable crc32 crc32_u32 s)
      → ensure_healthy s.writer ≡ ok tt
      → IsLogged crc32 crc32_u32 Bool.false s.writer d.last
  healthy-IsLogged s d q = elim d.writer [
    | inl h ↦ h
    | inr poisoned ↦
        absurd (ground (arith, q, ensure_healthy-err crc32 crc32_u32 s.writer poisoned))
  ]

  rotate-IsDurable :
      (s : Session)
      → IsDurable crc32 crc32_u32 s
      → IsDurable crc32 crc32_u32 (record s { writer = (rotate_wal_file crc32 s.writer).0 })
  unfolding rotate_wal_file
  rotate-IsDurable s d = elim d.writer [
    | inr poisoned ↦
        subst (λ w. IsDurable crc32 crc32_u32 (record s { writer = w }))
          (sym (refused-rotate crc32 crc32_u32 s.writer poisoned)) d
    | inl h ↦ elim (Result-cases (rotate_locked crc32 s.writer)) [
      | inr (e, q) ↦
          rw (ensure_healthy-ok crc32 crc32_u32 s.writer h.healthy, rotate_wal_file, q)
            (record {
              origin = d.origin;
              last = d.last;
              starts = d.starts;
              log = d.log;
              writer = inr refl;
              kept = d.kept;
            })
      | inl (r, q) ↦
          let (logged, number, same) =
            rotate_locked-IsLogged crc32 crc32_u32 Bool.false s.writer d.last h r q in
          rw (ensure_healthy-ok crc32 crc32_u32 s.writer h.healthy, rotate_wal_file, q)
            (open-IsDurable crc32 crc32_u32 r s.history d.last logged d.kept)
    ]
  ]

  -- Whatever becomes of the state of a writer, what its directory holds is kept.
  poisoned-IsDurable :
      (s : Session)
      → IsDurable crc32 crc32_u32 s
      → IsDurable crc32 crc32_u32 (record s { writer = record s.writer { poisoned = Bool.true } })
  poisoned-IsDurable s d = record {
    origin = d.origin;
    last = d.last;
    starts = d.starts;
    log = d.log;
    writer = inr refl;
    kept = d.kept;
  }

  interrupt-IsDurable :
      (s : Session) (n : ℕ)
      → IsDurable crc32 crc32_u32 s
      → IsDurable crc32 crc32_u32 (record s { writer = (interrupt_rotation crc32 n s.writer).0 })
  unfolding interrupt_rotation
  interrupt-IsDurable s n d = elim (Result-cases (ensure_healthy s.writer)) [
    | inr (e, q) ↦ rw (q, interrupt_rotation) d
    | inl (u, q) ↦ elim (Bool-cases (not (ltb (s.writer.segment_id + 1) (2 ^ 64)))) [
      | inl t ↦ rw (q, interrupt_rotation, t) (poisoned-IsDurable s d)
      | inr f ↦ elim (Bool-cases (is_missing (s.writer.segment_id + 1) s.writer.files)) [
        | inr there ↦ rw (q, interrupt_rotation, f, there) (poisoned-IsDurable s d)
        | inl missing ↦
            let h = healthy-IsLogged s d q in
            rw (q, interrupt_rotation, f, missing)
              (record {
                origin = h.origin;
                last = d.last;
                starts = h.starts;
                log = interrupted-HasLog crc32 crc32_u32 Bool.false s.writer d.last h n;
                writer = inr refl;
                kept = d.kept;
              })
      ]
    ]
  ]

  -- The directory can be opened again whatever the session was.
  pub open_again-IsDurable :
      (s : Session)
      → IsDurable crc32 crc32_u32 s
      → (w : WalManager) × (open_again crc32 s.writer ≡ ok w)
        × ((a : Analysis) × IsLogged crc32 crc32_u32 Bool.false w a
            × Survives s.history (commands a))
  unfolding open_again
  open_again-IsDurable s d =
      let w = s.writer in
      let (r, opened, logged, same, size) =
        new_inner-HasLog crc32 crc32_u32 w.checkpoint w.max_segment_size w.checkpoint_owner w.files
          d.origin d.last d.starts d.log in
      (r, opened, (d.last, logged, d.kept))

  -- A writer that does not rotate is not checkpointed.
  checkpoint-IsDurable :
      (s : Session) (owner : Option ℕ) (committed_sequence : ℕ)
      → IsDurable crc32 crc32_u32 s
      → (t : Session) × (use_once crc32 s (checkpoint owner committed_sequence) ≡ ok t)
        × IsDurable crc32 crc32_u32 t
  unfolding use_once rotate_wal_file
  checkpoint-IsDurable s owner committed_sequence d =
      elim (Result-cases (ensure_healthy s.writer)) [
        | inr (e, q) ↦ (
          record { writer = s.writer; history = s.history },
          rw (q, use_once, rotate_wal_file) refl,
          d,
        )
        | inl (u, q) ↦ elim (Result-cases (rotate_locked crc32 s.writer)) [
          | inr (e, x) ↦ (
            record { writer = record s.writer { poisoned = Bool.true }; history = s.history },
            rw (q, use_once, rotate_wal_file, x) refl,
            record {
              origin = d.origin;
              last = d.last;
              starts = d.starts;
              log = d.log;
              writer = inr refl;
              kept = d.kept;
            },
          )
          | inl (r, x) ↦
              let h = healthy-IsLogged s d q in
              let (logged, empty) =
                rotate_locked-empty crc32 crc32_u32 Bool.false s.writer d.last h r x in
              (
                _,
                rw (q, use_once, rotate_wal_file, x) refl,
                reclaim_log-IsDurable crc32 crc32_u32 r s.history owner committed_sequence d.last
                    logged empty d.kept,
              )
        ]
      ]

  use_once-IsDurable :
      (s : Session) (u : Use)
      → IsDurable crc32 crc32_u32 s
      → AllowsUse u
      → (t : Session) × (use_once crc32 s u ≡ ok t) × IsDurable crc32 crc32_u32 t
  unfolding use_once
  use_once-IsDurable s (register token) d has =
      (_, refl, register-IsDurable crc32 crc32_u32 s token d)
  use_once-IsDurable s (append owner groups collecting outcome) d has =
      uses_append-IsDurable crc32 crc32_u32 s owner groups collecting outcome d has
  use_once-IsDurable s rotate d has = (_, refl, rotate-IsDurable s d)
  use_once-IsDurable s (interrupt n) d has = (_, refl, interrupt-IsDurable s n d)
  use_once-IsDurable s (checkpoint owner committed_sequence) d has =
      checkpoint-IsDurable s owner committed_sequence d
  use_once-IsDurable s reopen d has =
      let (w, opened, (a, logged, kept)) = open_again-IsDurable s d in
      (
        record { writer = w; history = s.history },
        rw opened refl,
        open-IsDurable crc32 crc32_u32 w s.history a logged kept,
      )

  pub run-IsDurable :
      (s : Session) (uses : List Use)
      → IsDurable crc32 crc32_u32 s
      → All AllowsUse uses
      → (t : Session) × (run crc32 s uses ≡ ok t) × IsDurable crc32 crc32_u32 t
  unfolding run
  run-IsDurable s [] d has = (s, refl, d)
  run-IsDurable s (u ∷ us) d has =
      let (t, first, durable) = use_once-IsDurable s u d has.0 in
      let (r, later, last) = run-IsDurable t us durable has.1 in (r, rw (first, run) later, last)
