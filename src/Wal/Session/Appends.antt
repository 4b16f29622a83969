-- ===== src/Wal/Session/Appends.antt =====
-- Registrations and appends of a session.
use cere_db.Base.{
  not, Bool-cases, ℕ, ◌<◌, ◌^◌, ◌≡◌, refl, Bool, inl, inr, Option, some, ◌||◌, List, ◌∷◌, All,
}
use cere_db.Error.{ok}
use cere_db.Bytes.{Bytes}
use cere_db.Ord.{nat_ord}
use cere_db.LogStore.{LogCommand}
use cere_db.Wal.Manager.{Write, append_transactions}
use cere_db.Wal.Logged.Flags.{IsLogged-flags}
use cere_db.Wal.Owner.{
  mark_untracked_mutation, same_token, register_checkpoint_owner, append_engine_transactions,
}
use cere_db.Wal.Plan.Updates.{HasLsn}
use cere_db.Wal.Session.{is_ok, append, Session, use_once}
use cere_db.Wal.Session.Durable.{IsDurable, append-IsDurable, refused-append, none-Survives}

module _ (crc32 : Bytes → ℕ) (crc32_u32 : (bs : Bytes) → crc32 bs < 2 ^ 32) where
  -- An append, by the owner of the checkpoints or by another.
  direct-IsDurable :
      (s : Session) (groups : List (List LogCommand)) (collecting : Bool) (outcome : Write)
      → IsDurable crc32 crc32_u32 s
      → All (All HasLsn) groups
      → IsDurable crc32 crc32_u32 (record {
        writer = (append_transactions crc32 s.writer groups collecting outcome).0;
        history =
            (groups, is_ok (append_transactions crc32 s.writer groups collecting outcome).1)
            ∷ s.history;
      })
  direct-IsDurable s groups collecting outcome d has = elim d.writer [
    | inl h ↦
        append-IsDurable crc32 crc32_u32 s.writer s.history groups collecting outcome has d.last h
          d.kept
    | inr poisoned ↦
        let (same, complete) =
          refused-append crc32 crc32_u32 s.writer groups collecting outcome poisoned in
        rw same (record {
          origin = d.origin;
          last = d.last;
          starts = d.starts;
          log = d.log;
          writer = inr poisoned;
          kept = none-Survives crc32 crc32_u32 s.history groups _ d.last d.kept complete;
        })
  ]

  -- The flags of ownership are no part of what is kept.
  flags-IsDurable :
      (s : Session) (raw registered : Bool) (token : Option ℕ)
      → IsDurable crc32 crc32_u32 s
      → IsDurable crc32 crc32_u32 (record s {
        writer = record s.writer {
          raw_writes = raw;
          checkpoint_owner_registered = registered;
          checkpoint_token = token;
        };
      })
  flags-IsDurable s raw registered token d = record {
    origin = d.origin;
    last = d.last;
    starts = d.starts;
    log = d.log;
    writer = elim d.writer [
      | inl h ↦ inl (IsLogged-flags crc32 crc32_u32 s.writer d.last raw registered token h)
      | inr poisoned ↦ inr poisoned
    ];
    kept = d.kept;
  }

  pub register-IsDurable :
      (s : Session) (token : ℕ)
      → IsDurable crc32 crc32_u32 s
      → IsDurable crc32 crc32_u32
          (record s { writer = (register_checkpoint_owner token s.writer).0 })
  unfolding register_checkpoint_owner
  register-IsDurable s token d =
      elim (Bool-cases (not s.writer.checkpoint_owner || s.writer.checkpoint_owner_registered)) [
        | inl t ↦ rw (t, register_checkpoint_owner) d
        | inr f ↦
            rw (f, register_checkpoint_owner)
              (flags-IsDurable s s.writer.raw_writes Bool.true (some token) d)
      ]

  pub uses_append-IsDurable :
      (s : Session) (owner : Option ℕ) (groups : List (List LogCommand)) (collecting : Bool)
      (outcome : Write)
      → IsDurable crc32 crc32_u32 s
      → All (All HasLsn) groups
      → (t : Session) × (use_once crc32 s (append owner groups collecting outcome) ≡ ok t)
        × IsDurable crc32 crc32_u32 t
  unfolding use_once append_engine_transactions
  uses_append-IsDurable s owner groups collecting outcome d has =
      elim (Bool-cases (same_token s.writer.checkpoint_token owner)) [
        | inl t ↦ (
          _,
          rw (t, append_engine_transactions) refl,
          direct-IsDurable s groups collecting outcome d has,
        )
        | inr f ↦ (
          _,
          rw (f, append_engine_transactions) refl,
          direct-IsDurable (record s { writer = mark_untracked_mutation s.writer }) groups
              collecting outcome
              (flags-IsDurable s Bool.true s.writer.checkpoint_owner_registered
                s.writer.checkpoint_token d)
              has,
        )
      ]
