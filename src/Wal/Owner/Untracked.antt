-- ===== src/Wal/Owner/Untracked.antt =====
-- Whether the engine may trust the position of the writer: calls in any order, and the flag of writes
-- that came without the engine's token.
use cere_db.Base.{
  ℕ, ◌-◌, ◌≡◌, refl, sym, ap, ◌∙◌, true, false, not, ltb, ◌&&◌, Bool, Bool-cases, inl, inr, Option,
  some, List, [], ◌∷◌, ◌++◌, length, arith, min, ◌+◌, ◌^◌,
}
use cere_db.Error.{Result-cases, ok, err}
use cere_db.Bytes.{Bytes}
use cere_db.LogStore.{LogCommand}
use cere_db.Manifest.{RecoveryCheckpoint}
use cere_db.Wal.{max_group_count, wal_header_size}
use cere_db.Wal.Plan.{Plan, plan_transactions, all_receipts}
use cere_db.Wal.Manager.{
  WalManager, Write, written, torn, ensure_healthy, rotate_locked, make_room, write_file,
  write_group, start_plan, append_planned, append_transactions, rotate_wal_file,
}
use cere_db.Wal.Segments.{create_segment}
use cere_db.Wal.Owner.{
  mark_untracked_mutation, register_checkpoint_owner, same_token, trusted_recovery_position,
  change_to_reserve, reclaim_checkpointed_segments, write_transaction, append_engine_transactions,
}
use cere_db.Wal.Recovery.{has_id}

pub data Call : Type 0 where
  register : ℕ → Call
  write : List LogCommand → Write → Call
  append : List (List LogCommand) → Option ℕ → Bool → Write → Call
  rotate : Call
  reserve : ℕ → Call
  reclaim : Option ℕ → RecoveryCheckpoint → Call

module _ (crc32 : Bytes → ℕ) where
  unfoldable pub call_once : WalManager → Call → WalManager
  call_once w (register token) = (register_checkpoint_owner token w).0
  call_once w (write commands outcome) = (write_transaction crc32 w commands outcome).0
  call_once w (append groups owner collecting outcome) =
      (append_engine_transactions crc32 w groups owner collecting outcome).0
  call_once w rotate = (rotate_wal_file crc32 w).0
  call_once w (reserve id) = (change_to_reserve id w).0
  call_once w (reclaim failing c) = (reclaim_checkpointed_segments failing c w).0

  unfoldable pub calls : WalManager → List Call → WalManager
  calls w [] = w
  calls w (c ∷ cs) = calls (call_once w c) cs

  -- A write without the token that is registered.
  abbrev pub is_untracked : WalManager → Call → Bool
  is_untracked w (write commands outcome) = Bool.true
  is_untracked w (append groups owner collecting outcome) =
      not (same_token w.checkpoint_token owner)
  is_untracked w _ = Bool.false

  abbrev Raw : WalManager → WalManager → Type 0
  Raw w after = after.raw_writes ≡ w.raw_writes

  rotate_locked-Raw : (w r : WalManager) → rotate_locked crc32 w ≡ ok r → Raw w r
  unfolding rotate_locked
  rotate_locked-Raw w r h = elim (Bool-cases (ltb (w.segment_id + 1) (2 ^ 64))) [
    | inr f ↦ absurd (ground (arith, (rw f at h)))
    | inl t ↦ elim (Result-cases (create_segment crc32 (w.segment_id + 1) w.files)) [
      | inr (e, q) ↦ absurd (ground (arith, (rw (t, q) at h)))
      | inl (files, q) ↦
          ap (λ x. elim x [ ok y ↦ y.raw_writes | err e ↦ r.raw_writes ]) (sym (rw (t, q) at h))
    ]
  ]

  make_room-Raw : (w r : WalManager) (bytes : Bytes) → make_room crc32 w bytes ≡ ok r → Raw w r
  unfolding make_room
  make_room-Raw w r bytes h =
      elim (Bool-cases (
        ltb wal_header_size w.size
        && ltb w.max_segment_size (min (w.size + length bytes) (2 ^ 64 - 1)))) [
          | inl t ↦ rotate_locked-Raw w r (rw t at h)
          | inr f ↦
              ap (λ x. elim x [ ok y ↦ y.raw_writes | err e ↦ r.raw_writes ]) (sym (rw f at h))
        ]

  write_group-Raw :
      (w : WalManager) (bytes : Bytes) (next_lsn : ℕ) (outcome : Write)
      → Raw w (write_group w bytes next_lsn outcome).0
  unfolding write_group write_file
  write_group-Raw w bytes next_lsn written = refl
  write_group-Raw w bytes next_lsn (torn n) = refl

  append_planned-Raw :
      (w : WalManager) (p : Plan) (outcome : Write) → Raw w (append_planned crc32 w p outcome).0
  unfolding append_planned
  append_planned-Raw w p outcome = elim (Result-cases (make_room crc32 w p.bytes)) [
    | inr (e, q) ↦ rw (q, append_planned) refl
    | inl (r, q) ↦ elim (Result-cases (all_receipts r.segment_id r.size p.planned)) [
      | inr (e, x) ↦ rw (q, append_planned, x) (make_room-Raw w r p.bytes q)
      | inl (receipts, x) ↦
          rw (q, append_planned, x)
            (write_group-Raw r p.bytes p.next_lsn outcome ∙ make_room-Raw w r p.bytes q)
    ]
  ]

  append_transactions-Raw :
      (w : WalManager) (groups : List (List LogCommand)) (collecting : Bool) (outcome : Write)
      → Raw w (append_transactions crc32 w groups collecting outcome).0
  unfolding append_transactions
  append_transactions-Raw w [] collecting outcome = refl
  append_transactions-Raw w (g ∷ gs) collecting outcome =
      elim (Bool-cases (ltb max_group_count (length (g ∷ gs)))) [
        | inl t ↦ rw t refl
        | inr f ↦ elim (Result-cases (ensure_healthy w)) [
          | inr (e, h) ↦ rw (f, h, append_transactions) refl
          | inl (u, h) ↦
              elim (Result-cases (plan_transactions crc32 collecting (start_plan w) (g ∷ gs))) [
                | inr (e, q) ↦ rw (f, h, append_transactions, q) refl
                | inl (p, q) ↦ rw (f, h, append_transactions, q) (append_planned-Raw w p outcome)
              ]
        ]
      ]

  rotate_wal_file-Raw : (w : WalManager) → Raw w (rotate_wal_file crc32 w).0
  unfolding rotate_wal_file
  rotate_wal_file-Raw w = elim (Result-cases (ensure_healthy w)) [
    | inr (e, h) ↦ rw (h, rotate_wal_file) refl
    | inl (u, h) ↦ elim (Result-cases (rotate_locked crc32 w)) [
      | inr (e, q) ↦ rw (h, rotate_wal_file, q) refl
      | inl (r, q) ↦ rw (h, rotate_wal_file, q) (rotate_locked-Raw w r q)
    ]
  ]

  change_to_reserve-Raw : (id : ℕ) (w : WalManager) → Raw w (change_to_reserve id w).0
  unfolding change_to_reserve
  change_to_reserve-Raw id w = elim (Result-cases (ensure_healthy w)) [
    | inr (e, h) ↦ rw (h, change_to_reserve) refl
    | inl (u, h) ↦ elim (Bool-cases (has_id id w.sealed)) [
      | inl t ↦ rw (h, change_to_reserve, t) refl
      | inr f ↦ rw (h, change_to_reserve, f) refl
    ]
  ]

  reclaim-Raw :
      (failing : Option ℕ) (c : RecoveryCheckpoint) (w : WalManager)
      → Raw w (reclaim_checkpointed_segments failing c w).0
  unfolding reclaim_checkpointed_segments
  reclaim-Raw failing c w = elim (Bool-cases w.checkpoint_owner) [
    | inr f ↦ ground (arith, f)
    | inl t ↦ elim (Result-cases (ensure_healthy w)) [
      | inr (e, h) ↦ ground (arith, t, h)
      | inl (u, h) ↦ ground (arith, t, h)
    ]
  ]

  register-Raw : (token : ℕ) (w : WalManager) → Raw w (register_checkpoint_owner token w).0
  unfolding register_checkpoint_owner
  register-Raw token w = ground arith

  -- Once it is set, the flag stays.
  call_once-raw :
      (w : WalManager) (c : Call) → w.raw_writes ≡ true → (call_once w c).raw_writes ≡ true
  unfolding call_once write_transaction append_engine_transactions
  call_once-raw w (register token) h = register-Raw token w ∙ h
  call_once-raw w (write commands outcome) h =
      append_transactions-Raw (mark_untracked_mutation w) (commands ∷ []) Bool.false outcome
  call_once-raw w (append groups owner collecting outcome) h =
      elim (Bool-cases (same_token w.checkpoint_token owner)) [
        | inl t ↦
            rw (t, call_once, append_engine_transactions)
              (append_transactions-Raw w groups collecting outcome ∙ h)
        | inr f ↦
            rw (f, call_once, append_engine_transactions)
              (append_transactions-Raw (mark_untracked_mutation w) groups collecting outcome)
      ]
  call_once-raw w rotate h = rotate_wal_file-Raw w ∙ h
  call_once-raw w (reserve id) h = change_to_reserve-Raw id w ∙ h
  call_once-raw w (reclaim failing c) h = reclaim-Raw failing c w ∙ h

  untracked-raw :
      (w : WalManager) (c : Call) → is_untracked w c ≡ true → (call_once w c).raw_writes ≡ true
  unfolding call_once write_transaction append_engine_transactions
  untracked-raw w (register token) h = absurd (ground (arith, h))
  untracked-raw w (write commands outcome) h =
      append_transactions-Raw (mark_untracked_mutation w) (commands ∷ []) Bool.false outcome
  untracked-raw w (append groups owner collecting outcome) h =
      let other : same_token w.checkpoint_token owner ≡ false = ground (arith, h) in
      rw (other, call_once, append_engine_transactions)
        (append_transactions-Raw (mark_untracked_mutation w) groups collecting outcome)
  untracked-raw w rotate h = absurd (ground (arith, h))
  untracked-raw w (reserve id) h = absurd (ground (arith, h))
  untracked-raw w (reclaim failing c) h = absurd (ground (arith, h))

  calls-raw :
      (w : WalManager) (cs : List Call) → w.raw_writes ≡ true → (calls w cs).raw_writes ≡ true
  unfolding calls
  calls-raw w [] h = h
  calls-raw w (c ∷ cs) h = calls-raw (call_once w c) cs (call_once-raw w c h)

  calls-append : (w : WalManager) (cs ds : List Call) → calls w (cs ++ ds) ≡ calls (calls w cs) ds
  unfolding calls
  calls-append w [] ds = refl
  calls-append w (c ∷ cs) ds = calls-append (call_once w c) cs ds

  -- After calls of which one was a write without the registered token, whether the write succeeded or
  -- not, and whatever the calls before and after, no position of the writer is trusted.
  pub trusted_recovery_position-untracked :
      (w : WalManager) (before after : List Call) (c : Call) (p : ℕ × ℕ)
      → is_untracked (calls w before) c ≡ true
      → ¬ (trusted_recovery_position (calls w (before ++ c ∷ after)) ≡ ok (some p))
  unfolding trusted_recovery_position calls
  trusted_recovery_position-untracked w before after c p h e =
      let last = calls w (before ++ c ∷ after) in
      let raw : last.raw_writes ≡ true =
        rw (calls-append w before (c ∷ after))
          (calls-raw (call_once (calls w before) c) after (untracked-raw (calls w before) c h)) in
      elim (Result-cases (ensure_healthy last)) [
        | inr (x, q) ↦ ground (arith, (rw (q, trusted_recovery_position) at e))
        | inl (u, q) ↦ ground (arith, (rw (q, trusted_recovery_position, raw) at e))
      ]
