-- ===== src/Wal/Logged/Answer.antt =====
-- The answer to an append, and the state of the writer with it.
use cere_db.Base.{
  ℕ, ◌<◌, ◌^◌, ◌≡◌, refl, sym, true, ltb, Bool, Bool-cases, inl, inr, ◌⊎◌, List, [], ◌∷◌, ◌++◌,
  append-nil, length, arith, All,
}
use cere_db.Error.{DbError, Result, Result-cases, ok, err, ◌>>=◌}
use cere_db.Bytes.{Bytes}
use cere_db.LogStore.{LogCommand}
use cere_db.Wal.{Analysis, WalValueRef, max_group_count}
use cere_db.Wal.Plan.{Plan, plan_transactions, all_receipts}
use cere_db.Wal.Plan.Updates.{HasLsn}
use cere_db.Wal.Plan.Groups.{plan_transactions-Plans}
use cere_db.Wal.Plan.Prefix.{concat, PlansGroup}
use cere_db.Wal.Manager.{
  WalManager, Write, written, torn, make_room, write_group, start_plan, append_planned,
  append_transactions,
}
use cere_db.Wal.Recovery.Sound.{commands}
use cere_db.Wal.Logged.{IsLogged, ensure_healthy-ok}
use cere_db.Wal.Logged.Append.{make_room-IsLogged, written-IsLogged}

module _ (crc32 : Bytes → ℕ) (crc32_u32 : (bs : Bytes) → crc32 bs < 2 ^ 32)
    (track_refs : Bool) where
  -- The append succeeds, and the group is logged.
  abbrev pub Acknowledges :
      Analysis → List (List LogCommand) → WalManager × Result (List (List WalValueRef)) → Type 0
  Acknowledges a groups r =
      (receipts : List (List WalValueRef)) × (r.1 ≡ ok receipts)
      × ((b : Analysis) × IsLogged crc32 crc32_u32 track_refs r.0 b
          × (commands b ≡ commands a ++ concat groups))

  -- The append fails, and the log is as it was or the writer refuses all that comes.
  abbrev pub Refuses : Analysis → WalManager × Result (List (List WalValueRef)) → Type 0
  Refuses a r =
      (e : DbError) × (r.1 ≡ err e)
      × (IsLogged crc32 crc32_u32 track_refs r.0 a ⊎ (r.0.poisoned ≡ true))

  abbrev pub Answers :
      Analysis → List (List LogCommand) → WalManager × Result (List (List WalValueRef)) → Type 0
  Answers a groups r = Acknowledges a groups r ⊎ Refuses a r

  module _ (w : WalManager) (a : Analysis) (groups : List (List LogCommand)) (p : Plan)
      (coll : Bool) where
    write_group-Answers :
        (r : WalManager) (receipts : List (List WalValueRef)) (outcome : Write)
        → IsLogged crc32 crc32_u32 track_refs r a
        → r.checkpoint ≡ w.checkpoint
        → r.next_lsn ≡ w.next_lsn
        → PlansGroup crc32 crc32_u32 coll (start_plan w) p groups
        → Answers a groups (
          (write_group r p.bytes p.next_lsn outcome).0,
          ((write_group r p.bytes p.next_lsn outcome).1 >>= λ _. ok receipts),
        )
    unfolding write_group
    write_group-Answers r receipts written h checkpoint number g =
        let (b, logged, all) =
          written-IsLogged crc32 crc32_u32 track_refs w r a groups p coll h checkpoint
            (start_plan w) (sym number) refl g in
        inl (receipts, refl, (b, logged, all))
    write_group-Answers r receipts (torn n) h checkpoint number g = inr (_, refl, inr refl)

    append_planned-Answers :
        (outcome : Write)
        → IsLogged crc32 crc32_u32 track_refs w a
        → PlansGroup crc32 crc32_u32 coll (start_plan w) p groups
        → Answers a groups (append_planned crc32 w p outcome)
    unfolding append_planned
    append_planned-Answers outcome h g = elim (Result-cases (make_room crc32 w p.bytes)) [
      | inr (e, q) ↦ rw (q, append_planned) (inr (e, refl, inr refl))
      | inl (r, q) ↦
          let (logged, number, checkpoint) =
            make_room-IsLogged crc32 crc32_u32 track_refs w r a p.bytes h q in
          elim (Result-cases (all_receipts r.segment_id r.size p.planned)) [
            | inr (e, x) ↦ rw (q, append_planned, x) (inr (e, refl, inr refl))
            | inl (receipts, x) ↦
                rw (q, append_planned, x)
                  (write_group-Answers r receipts outcome logged checkpoint number g)
          ]
    ]

  pub append_transactions-Answers :
      (w : WalManager) (a : Analysis) (groups : List (List LogCommand)) (collecting : Bool)
      (outcome : Write)
      → IsLogged crc32 crc32_u32 track_refs w a
      → All (All HasLsn) groups
      → Answers a groups (append_transactions crc32 w groups collecting outcome)
  unfolding append_transactions
  append_transactions-Answers w a [] collecting outcome h has =
      inl ([], refl, (a, h, sym (append-nil (commands a))))
  append_transactions-Answers w a (cs ∷ groups) collecting outcome h has =
      elim (Bool-cases (ltb max_group_count (length (cs ∷ groups)))) [
        | inl t ↦ rw t (inr (_, refl, inl h))
        | inr f ↦
            elim (Result-cases (plan_transactions crc32 collecting (start_plan w) (cs ∷ groups))) [
              | inr (e, q) ↦
                  rw (f, ensure_healthy-ok crc32 crc32_u32 w h.healthy, q) (inr (e, refl, inl h))
              | inl (p, q) ↦
                  let g =
                    plan_transactions-Plans crc32 crc32_u32 collecting (start_plan w) p
                      (cs ∷ groups) q has (omega (arith, h.next)) h.bound in
                  rw (f, ensure_healthy-ok crc32 crc32_u32 w h.healthy, q)
                    (append_planned-Answers w a (cs ∷ groups) p collecting outcome h g)
            ]
      ]
