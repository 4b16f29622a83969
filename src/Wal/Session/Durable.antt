-- ===== src/Wal/Session/Durable.antt =====
-- What a session keeps: the directory, the writer and the history of the appends together.
use cere_db.Base.{
  ℕ, ◌-◌, ◌<◌, ◌^◌, ◌≡◌, refl, sym, true, ltb, Bool, Bool-cases, inl, inr, ◌⊎◌, Option, some, none,
  List, [], ◌∷◌, ◌++◌, append-nil, length, arith, All, if◌then◌else◌,
}
use cere_db.Error.{Result, ok, err, storage_error}
use cere_db.Bytes.{Bytes}
use cere_db.LogStore.{LogCommand}
use cere_db.Wal.{Analysis, no_analysis, max_group_count, wal_header_size}
use cere_db.Wal.Plan.Updates.{HasLsn}
use cere_db.Wal.Plan.Prefix.{concat, HasPrefix}
use cere_db.Wal.Manager.{WalManager, Write, ensure_healthy, rotate_wal_file, append_transactions}
use cere_db.Wal.Segments.{analysis_from, floor_of}
use cere_db.Wal.Recovery.Sound.{commands, committed_commands}
use cere_db.Wal.Logged.{IsLogged, ensure_healthy-ok}
use cere_db.Wal.Logged.Answer.{append_transactions-Answers}
use cere_db.Wal.Logged.Append.{append_transactions-KeepsPrefix}
use cere_db.Wal.Logged.Write.{HasLog, IsLogged-HasLog}
use cere_db.Wal.Owner.{owns_recovery_checkpoints, trusted_recovery_position}
use cere_db.Wal.Owner.Reclaim.{analysis_at, reclaim-IsLogged}
use cere_db.Wal.Session.{
  reclaim_log, Use, register, append, rotate, interrupt, checkpoint, reopen, History, Session,
  is_ok,
}

-- What is left of a group: its first transactions, and all of them if the append succeeded.
pub record IsLeft (groups : List (List LogCommand)) (acknowledged : Bool) (added : List LogCommand)
    : Type 0 where
  pub done : List (List LogCommand)
  pub rest : List (List LogCommand)
  pub split : groups ≡ done ++ rest
  pub complete : acknowledged ≡ true → rest ≡ []
  pub same : added ≡ concat done

-- The commands that may be left after these appends.
abbrev pub Survives : History → List LogCommand → Type 0
Survives [] cs = cs ≡ []
Survives ((groups, acknowledged) ∷ history) cs =
    (before : List LogCommand) × Survives history before
    × ((added : List LogCommand) × IsLeft groups acknowledged added × (cs ≡ before ++ added))

abbrev pub AllowsUse : Use → Type 0
AllowsUse (register token) = Unit {0}
AllowsUse (append owner groups collecting outcome) = All (All HasLsn) groups
AllowsUse rotate = Unit {0}
AllowsUse (interrupt n) = Unit {0}
AllowsUse (checkpoint owner committed_sequence) = Unit {0}
AllowsUse reopen = Unit {0}

module _ (crc32 : Bytes → ℕ) (crc32_u32 : (bs : Bytes) → crc32 bs < 2 ^ 32) where
  pub record IsDurable (s : Session) : Type 0 where
    pub origin : Analysis
    pub last : Analysis
    pub starts : analysis_from Bool.false s.writer.checkpoint ≡ ok origin
    pub log :
        HasLog crc32 crc32_u32 Bool.false s.writer.files (floor_of s.writer.checkpoint) origin last
    pub writer : IsLogged crc32 crc32_u32 Bool.false s.writer last ⊎ (s.writer.poisoned ≡ true)
    pub kept : Survives s.history (commands last)

  -- A writer that is open.
  pub open-IsDurable :
      (w : WalManager) (history : History) (a : Analysis)
      → IsLogged crc32 crc32_u32 Bool.false w a
      → Survives history (commands a)
      → IsDurable (record { writer = w; history = history })
  open-IsDurable w history a h kept = record {
    origin = h.origin;
    last = a;
    starts = h.starts;
    log = IsLogged-HasLog crc32 crc32_u32 Bool.false w a h;
    writer = inl h;
    kept = kept;
  }

  pub ensure_healthy-err :
      (w : WalManager)
      → w.poisoned ≡ true
      → ensure_healthy w
        ≡ err (storage_error "WAL write interrupted or failed; reopen before reuse")
  unfolding ensure_healthy
  ensure_healthy-err w h = rw h refl

  -- Nothing is appended by a writer that refuses.
  pub refused-append :
      (w : WalManager) (groups : List (List LogCommand)) (collecting : Bool) (outcome : Write)
      → w.poisoned ≡ true
      → ((append_transactions crc32 w groups collecting outcome).0 ≡ w)
        × (is_ok (append_transactions crc32 w groups collecting outcome).1 ≡ true → groups ≡ [])
  unfolding append_transactions
  refused-append w [] collecting outcome h = (refl, λ e. refl)
  refused-append w (g ∷ gs) collecting outcome h =
      elim (Bool-cases (ltb max_group_count (length (g ∷ gs)))) [
        | inl t ↦ rw t (refl, λ e. absurd (ground (arith, e)))
        | inr f ↦ rw (f, ensure_healthy-err w h) (refl, λ e. absurd (ground (arith, e)))
      ]

  pub refused-rotate : (w : WalManager) → w.poisoned ≡ true → (rotate_wal_file crc32 w).0 ≡ w
  unfolding rotate_wal_file
  refused-rotate w h = rw (ensure_healthy-err w h, rotate_wal_file) refl

  -- Of the group, what the directory holds is left.
  left-Survives :
      (history : History) (groups : List (List LogCommand)) (acknowledged : Bool) (a b : Analysis)
      → Survives history (commands a)
      → (p : HasPrefix a groups b) → (acknowledged ≡ true → p.rest ≡ [])
      → Survives ((groups, acknowledged) ∷ history) (commands b)
  left-Survives history groups acknowledged a b kept p complete = (
    commands a,
    kept,
    (
      concat p.done,
      record { done = p.done; rest = p.rest; split = p.split; complete = complete; same = refl },
      p.same,
    ),
  )

  whole-Survives :
      (history : History) (groups : List (List LogCommand)) (acknowledged : Bool) (a b : Analysis)
      → Survives history (commands a)
      → commands b ≡ commands a ++ concat groups
      → Survives ((groups, acknowledged) ∷ history) (commands b)
  whole-Survives history groups acknowledged a b kept all = (
    commands a,
    kept,
    (
      concat groups,
      record {
        done = groups;
        rest = [];
        split = sym (append-nil groups);
        complete = λ e. refl;
        same = refl;
      },
      all,
    ),
  )

  pub none-Survives :
      (history : History) (groups : List (List LogCommand)) (acknowledged : Bool) (a : Analysis)
      → Survives history (commands a)
      → (acknowledged ≡ true → groups ≡ [])
      → Survives ((groups, acknowledged) ∷ history) (commands a)
  none-Survives history groups acknowledged a kept complete = (
    commands a,
    kept,
    (
      [],
      record { done = []; rest = groups; split = refl; complete = complete; same = refl },
      sym (append-nil (commands a)),
    ),
  )

  module _ (w : WalManager) (history : History) (groups : List (List LogCommand))
      (collecting : Bool) (outcome : Write) (has : All (All HasLsn) groups) where
    abbrev after : WalManager × Result (List (List cere_db.Wal.WalValueRef))
    after = append_transactions crc32 w groups collecting outcome

    abbrev appended : Session
    appended = record { writer = after.0; history = (groups, is_ok after.1) ∷ history }

    pub append-IsDurable :
        (a : Analysis)
        → IsLogged crc32 crc32_u32 Bool.false w a
        → Survives history (commands a)
        → IsDurable appended
    append-IsDurable a h kept =
        elim (append_transactions-Answers crc32 crc32_u32 Bool.false w a groups collecting outcome h
          has) [
            | inl (receipts, e, (b, logged, all)) ↦
                open-IsDurable after.0 ((groups, is_ok after.1) ∷ history) b logged
                  (whole-Survives history groups (is_ok after.1) a b kept all)
            | inr (e, refused, inl logged) ↦
                let no : is_ok after.1 ≡ true → groups ≡ [] =
                  λ t. absurd (ground (arith, t, refused)) in
                open-IsDurable after.0 ((groups, is_ok after.1) ∷ history) a logged
                  (none-Survives history groups (is_ok after.1) a kept no)
            | inr (e, refused, inr poisoned) ↦
                let k =
                  append_transactions-KeepsPrefix crc32 crc32_u32 Bool.false w a groups collecting
                    outcome h has in
                record {
                  origin = k.origin;
                  last = k.last;
                  starts = rw k.checkpoint k.starts;
                  log = rw k.checkpoint k.log;
                  writer = inr poisoned;
                  kept =
                      left-Survives history groups (is_ok after.1) a k.last kept k.prefix
                        (λ t. absurd (ground (arith, t, refused)));
                }
          ]

  -- A checkpoint of a writer whose active segment is empty.
  module _ (w : WalManager) (history : History) (owner : Option ℕ) (committed_sequence : ℕ) where
    abbrev reclaimed : WalManager × Bool
    reclaimed = reclaim_log w owner committed_sequence

    abbrev checkpointed : Session
    checkpointed = record { writer = reclaimed.0; history = if reclaimed.1 then [] else history }

    pub reclaim_log-IsDurable :
        (a : Analysis)
        → (h : IsLogged crc32 crc32_u32 Bool.false w a) → h.frames ≡ []
        → Survives history (commands a)
        → IsDurable checkpointed
    unfolding reclaim_log trusted_recovery_position owns_recovery_checkpoints
    reclaim_log-IsDurable a h empty kept = elim (Bool-cases (owns_recovery_checkpoints w owner)) [
      | inr f ↦ rw (f, reclaim_log) (open-IsDurable w history a h kept)
      | inl t ↦ elim (Bool-cases w.raw_writes) [
        | inl raw ↦
            let position : trusted_recovery_position w ≡ ok none =
              rw (ensure_healthy-ok crc32 crc32_u32 w h.healthy, trusted_recovery_position)
                (ground (arith, raw)) in
            rw (t, reclaim_log, position) (open-IsDurable w history a h kept)
        | inr tracked ↦
            let position : trusted_recovery_position w ≡ ok (some (w.segment_id, w.next_lsn)) =
              rw (ensure_healthy-ok crc32 crc32_u32 w h.healthy, trusted_recovery_position)
                (ground (arith, tracked)) in
            let authority : w.checkpoint_owner ≡ true = ground (arith, t) in
            let (r, done, logged, taken) =
              reclaim-IsLogged crc32 crc32_u32 w a committed_sequence h empty authority in
            rw (t, reclaim_log, position, done)
              (open-IsDurable r [] (analysis_at (w.next_lsn - 1)) logged
                (unfold committed_commands in refl))
      ]
    ]
