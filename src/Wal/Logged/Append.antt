-- ===== src/Wal/Logged/Append.antt =====
-- An append to a log that is open, whatever becomes of its write.
use mathlib.Core.Path.{subst}
use cere_db.Base.{
  ℕ, ◌+◌, ◌-◌, ◌<◌, ◌^◌, ◌≡◌, refl, sym, ap, ◌∙◌, ltb, ◌&&◌, min, Bool, Bool-cases, inl, inr, List,
  [], ◌∷◌, ◌++◌, append-nil, length, take, arith, All, All-append_left,
}
use cere_db.Error.{Result-cases, ok, eq_of_ok}
use cere_db.Bytes.{Bytes}
use cere_db.LogStore.{LogCommand}
use cere_db.Wal.{Analysis, wal_header_size, max_group_count}
use cere_db.Wal.Codec.RoundTrip.{FitsFrame}
use cere_db.Wal.Log.{log_bytes, log_bytes-Cut}
use cere_db.Wal.Log.Steps.{Steps-accept, Steps-prefix}
use cere_db.Wal.Plan.{Plan, plan_transactions, all_receipts}
use cere_db.Wal.Plan.Updates.{HasLsn}
use cere_db.Wal.Plan.Groups.{plan_transactions-Plans}
use cere_db.Wal.Plan.Prefix.{concat, HasPrefix, PlansGroup}
use cere_db.Wal.Manager.{
  WalManager, Write, written, torn, make_room, write_file, write_group, start_plan, append_planned,
  append_transactions,
}
use cere_db.Wal.Segments.{analysis_from, floor_of}
use cere_db.Wal.Recovery.Sound.{commands}
use cere_db.Wal.Logged.{IsLogged, ensure_healthy-ok}
use cere_db.Wal.Logged.Write.{HasLog, IsLogged-HasLog, extended-IsLogged, written-HasLog}
use cere_db.Wal.Logged.Rotate.{rotate_locked-IsLogged}

module _ (crc32 : Bytes → ℕ) (crc32_u32 : (bs : Bytes) → crc32 bs < 2 ^ 32)
    (track_refs : Bool) where
  -- What is left of the log holds what it held, and the first transactions of the group.
  pub record KeepsPrefix (w : WalManager) (a : Analysis) (groups : List (List LogCommand))
      (after : WalManager) : Type 0 where
    pub origin : Analysis
    pub last : Analysis
    pub checkpoint : after.checkpoint ≡ w.checkpoint
    pub starts : analysis_from track_refs w.checkpoint ≡ ok origin
    pub log : HasLog crc32 crc32_u32 track_refs after.files (floor_of w.checkpoint) origin last
    pub prefix : HasPrefix a groups last

  nothing-HasPrefix :
      (w : WalManager) (a : Analysis) (groups : List (List LogCommand))
      → IsLogged crc32 crc32_u32 track_refs w a
      → HasPrefix a groups a
  nothing-HasPrefix w a groups h = record {
    sound = h.sound;
    bound = omega (arith, h.next, h.bound);
    done = [];
    rest = groups;
    split = refl;
    same = sym (append-nil (commands a));
  }

  -- Nothing is written.
  unwritten-KeepsPrefix :
      (w r : WalManager) (a : Analysis) (groups : List (List LogCommand)) (poisoned : Bool)
      → IsLogged crc32 crc32_u32 track_refs r a
      → r.checkpoint ≡ w.checkpoint
      → KeepsPrefix w a groups (record r { poisoned = poisoned })
  unwritten-KeepsPrefix w r a groups poisoned h e = record {
    origin = h.origin;
    last = a;
    checkpoint = e;
    starts = rw e at h.starts;
    log = rw e at (IsLogged-HasLog crc32 crc32_u32 track_refs r a h);
    prefix = nothing-HasPrefix r a groups h;
  }

  pub make_room-IsLogged :
      (w r : WalManager) (a : Analysis) (bytes : Bytes)
      → IsLogged crc32 crc32_u32 track_refs w a
      → make_room crc32 w bytes ≡ ok r
      → IsLogged crc32 crc32_u32 track_refs r a
        × (r.next_lsn ≡ w.next_lsn)
        × (r.checkpoint ≡ w.checkpoint)
  unfolding make_room
  make_room-IsLogged w r a bytes h e =
      elim (Bool-cases (
        ltb wal_header_size w.size
        && ltb w.max_segment_size (min (w.size + length bytes) (2 ^ 64 - 1)))) [
          | inl t ↦ rotate_locked-IsLogged crc32 crc32_u32 track_refs w a h r (rw t at e)
          | inr f ↦
              let same : w ≡ r = eq_of_ok w r (rw f at e) in
              subst
                (λ x.
                  IsLogged crc32 crc32_u32 track_refs x a
                  × (x.next_lsn ≡ w.next_lsn)
                  × (x.checkpoint ≡ w.checkpoint))
                same (h, refl, refl)
        ]

  module _ (w r : WalManager) (a : Analysis) (groups : List (List LogCommand)) (p : Plan)
      (coll : Bool) (h : IsLogged crc32 crc32_u32 track_refs r a) (e : r.checkpoint ≡ w.checkpoint)
      (first : Plan) (number : first.next_lsn ≡ r.next_lsn) (empty : first.bytes ≡ [])
      (g : PlansGroup crc32 crc32_u32 coll first p groups) where
    abbrev there : ℕ
    there = wal_header_size + length (log_bytes crc32 crc32_u32 h.frames)

    planned_bytes : p.bytes ≡ log_bytes crc32 crc32_u32 g.frames
    planned_bytes = g.bytes ∙ ap (λ bs. bs ++ log_bytes crc32 crc32_u32 g.frames) empty

    -- The whole group is written.
    pub written-IsLogged :
        (b : Analysis) × IsLogged crc32 crc32_u32 track_refs
          (write_group r p.bytes p.next_lsn written).0
          b
        × (commands b ≡ commands a ++ concat groups)
    unfolding write_group
    written-IsLogged =
        let (b, steps, sound, last, all) =
          g.accepted a r.segment_id there h.sound (h.next ∙ sym number) in
        let (taken, prefix) =
          Steps-accept crc32 crc32_u32 (HasPrefix a groups) r.segment_id a b there g.frames steps in
        (
          b,
          extended-IsLogged crc32 crc32_u32 track_refs r a h b g.frames p.bytes p.next_lsn
              planned_bytes g.fits taken sound last g.next,
          all,
        )

    -- The first bytes of the group are written.
    torn-KeepsPrefix :
        (n : ℕ) → KeepsPrefix w a groups (write_group r p.bytes p.next_lsn (torn n)).0
    unfolding write_group
    torn-KeepsPrefix n =
        let cut = log_bytes-Cut crc32 crc32_u32 g.frames n g.fits in
        let (b, steps, sound, last, all) =
          g.accepted a r.segment_id there h.sound (h.next ∙ sym number) in
        let (c, taken, prefix) =
          Steps-prefix crc32 crc32_u32 (HasPrefix a groups) r.segment_id a b there cut.whole
            cut.lost (rw cut.frames at steps) in
        let bytes : take n p.bytes ≡ log_bytes crc32 crc32_u32 cut.whole ++ cut.torn =
          ap (take n) planned_bytes ∙ cut.bytes in
        record {
          origin = h.origin;
          last = c;
          checkpoint = e;
          starts = rw e at h.starts;
          log = rw e at (
              written-HasLog crc32 crc32_u32 track_refs r a h c cut.whole cut.torn (take n p.bytes)
                bytes cut.stops
                (All-append_left FitsFrame cut.whole cut.lost (rw cut.frames at g.fits)) taken
                prefix.sound prefix.bound);
          prefix = prefix;
        }

    written-KeepsPrefix : KeepsPrefix w a groups (write_group r p.bytes p.next_lsn written).0
    unfolding write_group
    written-KeepsPrefix =
        let (b, logged, all) = written-IsLogged in
        record {
          origin = logged.origin;
          last = b;
          checkpoint = unfold write_file in e;
          starts = unfold write_file in rw e at logged.starts;
          log =
              unfold write_file in
              rw e at (
                IsLogged-HasLog crc32 crc32_u32 track_refs
                  (write_group r p.bytes p.next_lsn written).0 b logged);
          prefix = record {
            sound = logged.sound;
            bound = omega (arith, logged.next, logged.bound);
            done = groups;
            rest = [];
            split = sym (append-nil groups);
            same = all;
          };
        }

    write_group-KeepsPrefix :
        (outcome : Write) → KeepsPrefix w a groups (write_group r p.bytes p.next_lsn outcome).0
    write_group-KeepsPrefix written = written-KeepsPrefix
    write_group-KeepsPrefix (torn n) = torn-KeepsPrefix n

  module _ (w : WalManager) (a : Analysis) (groups : List (List LogCommand)) (p : Plan)
      (coll : Bool) (h : IsLogged crc32 crc32_u32 track_refs w a)
      (g : PlansGroup crc32 crc32_u32 coll (start_plan w) p groups) (outcome : Write) where
    append_planned-KeepsPrefix : KeepsPrefix w a groups (append_planned crc32 w p outcome).0
    unfolding append_planned
    append_planned-KeepsPrefix = elim (Result-cases (make_room crc32 w p.bytes)) [
      | inr (e, q) ↦ rw (q, append_planned) (unwritten-KeepsPrefix w w a groups Bool.true h refl)
      | inl (r, q) ↦
          let (logged, number, checkpoint) = make_room-IsLogged w r a p.bytes h q in
          elim (Result-cases (all_receipts r.segment_id r.size p.planned)) [
            | inr (e, x) ↦
                rw (q, append_planned, x)
                  (unwritten-KeepsPrefix w r a groups Bool.true logged checkpoint)
            | inl (receipts, x) ↦
                rw (q, append_planned, x)
                  (write_group-KeepsPrefix w r a groups p coll logged checkpoint (start_plan w)
                    (sym number) refl g outcome)
          ]
    ]

  -- Whatever an append to an open log does, the directory then holds what was logged, and the first
  -- transactions of the group, and nothing else.
  pub append_transactions-KeepsPrefix :
      (w : WalManager) (a : Analysis) (groups : List (List LogCommand)) (collecting : Bool)
      (outcome : Write)
      → IsLogged crc32 crc32_u32 track_refs w a
      → All (All HasLsn) groups
      → KeepsPrefix w a groups (append_transactions crc32 w groups collecting outcome).0
  unfolding append_transactions
  append_transactions-KeepsPrefix w a [] collecting outcome h has =
      unwritten-KeepsPrefix w w a [] w.poisoned h refl
  append_transactions-KeepsPrefix w a (cs ∷ groups) collecting outcome h has =
      elim (Bool-cases (ltb max_group_count (length (cs ∷ groups)))) [
        | inl t ↦ rw t (unwritten-KeepsPrefix w w a (cs ∷ groups) w.poisoned h refl)
        | inr f ↦
            elim (Result-cases (plan_transactions crc32 collecting (start_plan w) (cs ∷ groups))) [
              | inr (e, q) ↦
                  rw (f, ensure_healthy-ok crc32 crc32_u32 w h.healthy, q)
                    (unwritten-KeepsPrefix w w a (cs ∷ groups) w.poisoned h refl)
              | inl (p, q) ↦
                  let g =
                    plan_transactions-Plans crc32 crc32_u32 collecting (start_plan w) p
                      (cs ∷ groups) q has (omega (arith, h.next)) h.bound in
                  rw (f, ensure_healthy-ok crc32 crc32_u32 w h.healthy, q)
                    (append_planned-KeepsPrefix w a (cs ∷ groups) p collecting h g outcome)
            ]
      ]
