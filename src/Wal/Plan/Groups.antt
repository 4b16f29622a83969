-- ===== src/Wal/Plan/Groups.antt =====
-- The frames of a planned group of transactions.
use mathlib.Core.Path.{subst}
use cere_db.Base.{
  ℕ, ◌+◌, ◌<◌, ◌^◌, ◌≡◌, ◌≢◌, refl, sym, ap, ◌∙◌, not, ltb, Bool, List, [], ◌∷◌, ◌++◌, append_assoc,
  append-nil, length, arith, All, All-append,
}
use cere_db.Error.{ok, bind-ok_lem, eq_of_ok, refuse-ok_lem}
use cere_db.Bytes.{Bytes}
use cere_db.LogStore.{LogCommand}
use cere_db.Wal.{Frame, Analysis, max_group_encoded_size}
use cere_db.Wal.Codec.{encode_frame, frame_body, frame_checksum}
use cere_db.Wal.Codec.RoundTrip.{FitsFrame}
use cere_db.Wal.Scan.{position_of}
use cere_db.Wal.Scan.Frames.{frame_bytes, encode_frame-ok}
use cere_db.Wal.Log.{log_bytes, log_bytes-append, frame_size}
use cere_db.Wal.Log.Steps.{Steps, Steps-map, Steps-append}
use cere_db.Wal.Plan.{
  Plan, OpenPlan, commit_frame, open_plan, plan_updates, plan_commit, plan_transaction,
  plan_transactions,
}
use cere_db.Wal.Plan.Updates.{
  IsUnchanged, IsOpen-IsUnchanged, HasLsn, PlansUpdates, plan_updates-Plans,
}
use cere_db.Wal.Recovery.{accept_commit}
use cere_db.Wal.Recovery.Sound.{IsSound, commands}
use cere_db.Wal.Recovery.Open.{
  start-IsOpen, accept-commit, after_commit-IsSound, commands-after_commit, latest-after_commit,
}
use cere_db.Wal.Plan.Prefix.{concat, HasPrefix, PlansGroup, unchanged-HasPrefix, cons-Plans}

module _ (crc32 : Bytes → ℕ) (crc32_u32 : (bs : Bytes) → crc32 bs < 2 ^ 32)
    (collecting : Bool) where
  commit-fits :
      (id previous_lsn lsn : ℕ)
      → id < 2 ^ 64
      → previous_lsn < 2 ^ 64
      → lsn < 2 ^ 64
      → FitsFrame (commit_frame id previous_lsn lsn)
  commit-fits id previous_lsn lsn h k l = record {
    lsn = l;
    transaction_id = h;
    previous_lsn = k;
    content = tt;
  }

  log_bytes-snoc :
      (fs : List Frame) (f : Frame)
      → log_bytes crc32 crc32_u32 (fs ++ f ∷ [])
        ≡ log_bytes crc32 crc32_u32 fs ++ frame_bytes crc32 crc32_u32 f
  unfolding log_bytes
  log_bytes-snoc fs f =
      log_bytes-append crc32 crc32_u32 fs (f ∷ [])
      ∙ ap (λ x. log_bytes crc32 crc32_u32 fs ++ x) (append-nil (frame_bytes crc32 crc32_u32 f))

  module _ (p : Plan) (o : OpenPlan) (c : LogCommand) (cs : List LogCommand)
      (u : PlansUpdates crc32 crc32_u32 collecting p.next_lsn (open_plan p) o (c ∷ cs))
      (positive : 0 < p.next_lsn) (begun : 0 < o.previous_lsn)
      (bound : o.next_lsn + 1 < 2 ^ 64) where
    -- The frames of the transaction, of which the commit is the last.
    transaction_accepted :
        (a : Analysis) (segment_id offset : ℕ)
        → IsSound a
        → a.latest_lsn + 1 ≡ p.next_lsn
        → (b : Analysis) × Steps crc32 crc32_u32
            (HasPrefix a ((c ∷ cs) ∷ []))
            segment_id
            a
            offset
            (u.frames ++ commit_frame p.next_lsn o.previous_lsn o.next_lsn ∷ [])
            b
          × IsSound b
          × (b.latest_lsn + 1 ≡ o.next_lsn + 1)
          × (commands b ≡ commands a ++ concat ((c ∷ cs) ∷ []))
    transaction_accepted a segment_id offset s e =
        let f = commit_frame p.next_lsn o.previous_lsn o.next_lsn in
        let (b, steps, open_last) =
          u.accepted a a [] segment_id offset (start-IsOpen a p.next_lsn s e) in
        let there = offset + length (log_bytes crc32 crc32_u32 u.frames) in
        let checksum = frame_checksum crc32 f.lsn (frame_body f) in
        let position = position_of segment_id b there (frame_size crc32 crc32_u32 f) in
        let after = accept_commit b f position in
        let ne : o.previous_lsn ≢ 0 = λ z. omega (arith, begun, z) in
        let taken =
          accept-commit a b p.next_lsn o.previous_lsn o.next_lsn (c ∷ cs) open_last positive u.next
            ne checksum position in
        let sound =
          after_commit-IsSound a b p.next_lsn o.previous_lsn o.next_lsn (c ∷ cs) open_last positive
            u.next ne checksum position in
        let all =
          commands-after_commit a b p.next_lsn o.previous_lsn o.next_lsn (c ∷ cs) open_last positive
            u.next ne checksum position
          ∙ ap (λ xs. commands a ++ xs) (sym (append-nil (c ∷ cs))) in
        let last =
          latest-after_commit a b p.next_lsn o.previous_lsn o.next_lsn (c ∷ cs) open_last positive
            u.next ne checksum position in
        let done : HasPrefix a ((c ∷ cs) ∷ []) after = record {
          sound = sound;
          bound = omega (arith, last, bound);
          done = (c ∷ cs) ∷ [];
          rest = [];
          split = refl;
          same = all;
        } in
        (
          after,
          Steps-append crc32 crc32_u32 (HasPrefix a ((c ∷ cs) ∷ [])) segment_id a b after offset
              u.frames (f ∷ [])
              (Steps-map crc32 crc32_u32 (IsUnchanged a) (HasPrefix a ((c ∷ cs) ∷ [])) segment_id a
                b offset u.frames (unchanged-HasPrefix crc32 crc32_u32 collecting a ((c ∷ cs) ∷ []))
                steps)
              (
                unchanged-HasPrefix crc32 crc32_u32 collecting a ((c ∷ cs) ∷ []) b
                    (IsOpen-IsUnchanged open_last u.next),
                after,
                taken,
                (done, refl),
              ),
          sound,
          omega (arith, last),
          all,
        )

  -- The commit of a transaction whose updates are planned.
  plan_commit-Plans :
      (p q : Plan) (o : OpenPlan) (c : LogCommand) (cs : List LogCommand)
      → PlansUpdates crc32 crc32_u32 collecting (p.next_lsn) (open_plan p) o (c ∷ cs)
      → plan_commit crc32 collecting p.next_lsn p.planned o ≡ ok q
      → 0 < p.next_lsn
      → p.next_lsn < 2 ^ 64
      → PlansGroup crc32 crc32_u32 collecting p q ((c ∷ cs) ∷ [])
  unfolding plan_commit
  plan_commit-Plans p q o c cs u h positive small =
      let f = commit_frame p.next_lsn o.previous_lsn o.next_lsn in
      let begun : 0 < o.previous_lsn = u.begun (λ e. ground (arith, e)) in
      let fits = commit-fits p.next_lsn o.previous_lsn o.next_lsn small u.previous u.next in
      let (bytes, encoded, h1) = bind-ok_lem (encode_frame crc32 f) _ q h in
      let same : bytes ≡ frame_bytes crc32 crc32_u32 f =
        eq_of_ok bytes _ (sym encoded ∙ encode_frame-ok crc32 crc32_u32 f fits) in
      let (within, h2) =
        refuse-ok_lem (ltb max_group_encoded_size (o.group_size + length bytes)) _ _ q h1 in
      let (room, h3) = refuse-ok_lem (not (ltb (o.next_lsn + 1) (2 ^ 64))) _ _ q h2 in
      let whole : q.bytes ≡ o.bytes ++ bytes = sym (ap (λ x. x.bytes) (eq_of_ok _ q h3)) in
      let number : q.next_lsn ≡ o.next_lsn + 1 = sym (ap (λ x. x.next_lsn) (eq_of_ok _ q h3)) in
      let bound : o.next_lsn + 1 < 2 ^ 64 = ground (arith, room) in
      record {
        frames = u.frames ++ f ∷ [];
        bytes =
            whole
            ∙ ap (λ x. x ++ bytes) u.bytes
            ∙ ap (λ x. (p.bytes ++ log_bytes crc32 crc32_u32 u.frames) ++ x) same
            ∙ append_assoc p.bytes (log_bytes crc32 crc32_u32 u.frames)
                (frame_bytes crc32 crc32_u32 f)
            ∙ ap (λ x. p.bytes ++ x) (sym (log_bytes-snoc u.frames f));
        fits = All-append FitsFrame u.frames (f ∷ []) u.fits (fits, tt);
        next = omega (arith, number, bound);
        positive = omega (arith, number);
        accepted = λ a segment_id offset s e.
            let (b, steps, sound, last, all) =
              transaction_accepted p o c cs u positive begun bound a segment_id offset s e in
            (b, steps, sound, last ∙ sym number, all);
      }

  plan_transaction-Plans :
      (p q : Plan) (cs : List LogCommand)
      → plan_transaction crc32 collecting p cs ≡ ok q
      → All HasLsn cs
      → 0 < p.next_lsn
      → p.next_lsn < 2 ^ 64
      → PlansGroup crc32 crc32_u32 collecting p q (cs ∷ [])
  unfolding plan_transaction
  plan_transaction-Plans p q [] h has positive small = absurd (ground (arith, h))
  plan_transaction-Plans p q (c ∷ cs) h has positive small =
      let (o, first, later) =
        bind-ok_lem
          (plan_updates crc32 collecting p.next_lsn (length p.bytes) (open_plan p) (c ∷ cs)) _ q
          h in
      let u =
        plan_updates-Plans crc32 crc32_u32 collecting p.next_lsn (length p.bytes) (open_plan p) o
          (c ∷ cs) first has positive (omega arith) small (omega arith) in
      plan_commit-Plans p q o c cs u later positive small

  -- The plan of a group of transactions, if it succeeds.
  pub plan_transactions-Plans :
      (p q : Plan) (groups : List (List LogCommand))
      → plan_transactions crc32 collecting p groups ≡ ok q
      → All (All HasLsn) groups
      → 0 < p.next_lsn
      → p.next_lsn < 2 ^ 64
      → PlansGroup crc32 crc32_u32 collecting p q groups
  unfolding plan_transactions log_bytes
  plan_transactions-Plans p q [] h has positive small =
      let same : p ≡ q = eq_of_ok p q h in
      subst (λ x. PlansGroup crc32 crc32_u32 collecting p x []) same
        (record {
          frames = [];
          bytes = sym (append-nil p.bytes);
          fits = tt;
          next = small;
          positive = positive;
          accepted = λ a segment_id offset s e. (
            a,
            (
              record {
                sound = s;
                bound = omega (arith, e, small);
                done = [];
                rest = [];
                split = refl;
                same = sym (append-nil (commands a));
              },
              refl,
            ),
            s,
            e,
            sym (append-nil (commands a)),
          );
        })
  plan_transactions-Plans p q (cs ∷ groups) h has positive small =
      let (r, first, later) = bind-ok_lem (plan_transaction crc32 collecting p cs) _ q h in
      let one = plan_transaction-Plans p r cs first has.0 positive small in
      cons-Plans crc32 crc32_u32 collecting p r q cs groups one
        (plan_transactions-Plans r q groups later has.1 one.positive one.next)
