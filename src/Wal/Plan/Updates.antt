-- ===== src/Wal/Plan/Updates.antt =====
-- The frames of a planned transaction's updates.
use mathlib.Core.Path.{subst}
use cere_db.Base.{
  ℕ, ◌+◌, ◌≤◌, ◌<◌, ◌^◌, ◌≡◌, ◌≢◌, refl, sym, ap, ◌∙◌, false, not, ltb, Bool, Bool-cases, inl, inr,
  List, [], ◌∷◌, ◌++◌, append_assoc, append-nil, length, arith, All,
}
use cere_db.Error.{ok, bind-ok_lem, eq_of_ok, refuse-ok_lem}
use cere_db.Bytes.{Bytes}
use cere_db.LogStore.{LogCommand}
use cere_db.Wal.{update, Frame, Analysis, max_group_encoded_size}
use cere_db.Wal.Codec.{has_stray_value, encode_frame, frame_body, frame_checksum, is_oversized}
use cere_db.Wal.Codec.RoundTrip.{FitsFrame}
use cere_db.Wal.Scan.{position_of}
use cere_db.Wal.Scan.Frames.{frame_bytes, encode_frame-ok}
use cere_db.Wal.Log.{log_bytes, frame_size}
use cere_db.Wal.Log.Steps.{Steps}
use cere_db.Wal.Plan.{OpenPlan, update_frame, with_update, plan_update, plan_updates}
use cere_db.Wal.Recovery.{accept_update}
use cere_db.Wal.Recovery.Sound.{IsSound, commands}
use cere_db.Wal.Recovery.Open.{IsOpen, accept-update, after_update-IsOpen}

-- An analysis with the same commands as `a`, whose numbers are not exhausted.
pub record IsUnchanged (a b : Analysis) : Type 0 where
  pub sound : IsSound b
  pub bound : b.latest_lsn + 1 < 2 ^ 64
  pub same : commands b ≡ commands a

pub IsOpen-IsUnchanged :
    {a b : Analysis} {id previous_lsn lsn : ℕ} {cs : List LogCommand}
    → IsOpen a b id previous_lsn lsn cs
    → lsn < 2 ^ 64
    → IsUnchanged a b
IsOpen-IsUnchanged h small = record {
  sound = h.sound;
  bound = omega (arith, h.next, small);
  same = h.closed;
}

abbrev pub HasLsn : LogCommand → Type 0
HasLsn c = c.lsn < 2 ^ 64

module _ (crc32 : Bytes → ℕ) (crc32_u32 : (bs : Bytes) → crc32 bs < 2 ^ 32)
    (collecting : Bool) where
  -- A frame that is encoded is not too large.
  encode_frame-fits :
      (f : Frame) (bytes : Bytes) → encode_frame crc32 f ≡ ok bytes → is_oversized f.body ≡ false
  unfolding encode_frame
  encode_frame-fits f bytes h = elim (Bool-cases (is_oversized f.body)) [
    | inr e ↦ e
    | inl e ↦ absurd (ground (arith, h, e))
  ]

  pub record PlansUpdate (id start : ℕ) (p q : OpenPlan) (c : LogCommand) : Type 0 where
    pub fits : FitsFrame (update_frame id p.previous_lsn p.next_lsn c)
    pub bound : p.next_lsn + 1 < 2 ^ 64
    pub after :
        q
        ≡ with_update crc32 collecting id start p c
            (frame_bytes crc32 crc32_u32 (update_frame id p.previous_lsn p.next_lsn c))

  plan_update-Plans :
      (id start : ℕ) (p q : OpenPlan) (c : LogCommand)
      → plan_update crc32 collecting id start p c ≡ ok q
      → HasLsn c
      → id < 2 ^ 64
      → p.previous_lsn < 2 ^ 64
      → PlansUpdate id start p q c
  unfolding plan_update
  plan_update-Plans id start p q c h has small previous =
      let f = update_frame id p.previous_lsn p.next_lsn c in
      let (plain, h1) = refuse-ok_lem (has_stray_value c.record_type c.value) _ _ q h in
      let (short, h2) = refuse-ok_lem (not (ltb (length c.key) (2 ^ 32))) _ _ q h1 in
      let (bytes, encoded, h3) = bind-ok_lem (encode_frame crc32 f) _ q h2 in
      let (within, h4) =
        refuse-ok_lem (ltb max_group_encoded_size (p.group_size + length bytes)) _ _ q h3 in
      let (room, h5) = refuse-ok_lem (not (ltb (p.next_lsn + 1) (2 ^ 64))) _ _ q h4 in
      let bound : p.next_lsn + 1 < 2 ^ 64 = ground (arith, room) in
      let sized : is_oversized (update c) ≡ false = encode_frame-fits f bytes encoded in
      let fits : FitsFrame f = record {
        lsn = omega (arith, bound);
        transaction_id = small;
        previous_lsn = previous;
        content = record { lsn = has; plain = plain; size = ground (arith, sized) };
      } in
      let same : bytes ≡ frame_bytes crc32 crc32_u32 f =
        eq_of_ok bytes _ (sym encoded ∙ encode_frame-ok crc32 crc32_u32 f fits) in
      record {
        fits = fits;
        bound = bound;
        after = rw (← same) (sym (eq_of_ok (with_update crc32 collecting id start p c bytes) q h5));
      }

  -- What the plan of some updates adds to that of those before.
  pub record PlansUpdates (id : ℕ) (p q : OpenPlan) (cs : List LogCommand) : Type 0 where
    pub frames : List Frame
    pub bytes : q.bytes ≡ p.bytes ++ log_bytes crc32 crc32_u32 frames
    pub fits : All FitsFrame frames
    pub next : q.next_lsn < 2 ^ 64
    pub known : id ≤ q.next_lsn
    pub previous : q.previous_lsn < 2 ^ 64
    pub kept : 0 < p.previous_lsn → 0 < q.previous_lsn
    pub begun : cs ≢ [] → 0 < q.previous_lsn
    pub accepted :
        (a b : Analysis) (done : List LogCommand) (segment_id offset : ℕ)
        → IsOpen a b id p.previous_lsn p.next_lsn done
        → (c : Analysis) × Steps crc32 crc32_u32 (IsUnchanged a) segment_id b offset frames c
          × IsOpen a c id q.previous_lsn q.next_lsn (done ++ cs)

  cons-Plans :
      (id start : ℕ) (p q : OpenPlan) (c : LogCommand) (cs : List LogCommand)
      → 0 < id
      → id ≤ p.next_lsn
      → PlansUpdate id start p
          (with_update crc32 collecting id start p c
            (frame_bytes crc32 crc32_u32 (update_frame id p.previous_lsn p.next_lsn c)))
          c
      → PlansUpdates id
          (with_update crc32 collecting id start p c
            (frame_bytes crc32 crc32_u32 (update_frame id p.previous_lsn p.next_lsn c)))
          q
          cs
      → PlansUpdates id p q (c ∷ cs)
  unfolding with_update log_bytes
  cons-Plans id start p q c cs positive known one rest =
      let f = update_frame id p.previous_lsn p.next_lsn c in
      record {
        frames = f ∷ rest.frames;
        bytes =
            rest.bytes
            ∙ append_assoc p.bytes (frame_bytes crc32 crc32_u32 f)
                (log_bytes crc32 crc32_u32 rest.frames);
        fits = (one.fits, rest.fits);
        next = rest.next;
        known = rest.known;
        previous = rest.previous;
        kept = λ g. rest.kept (omega (arith, positive, known));
        begun = λ ne. rest.kept (omega (arith, positive, known));
        accepted = λ a b done segment_id offset h.
            let checksum = frame_checksum crc32 f.lsn (frame_body f) in
            let position = position_of segment_id b offset (frame_size crc32 crc32_u32 f) in
            let after = accept_update b f c checksum position in
            let (last, steps, open_last) =
              rest.accepted a after (done ++ c ∷ []) segment_id
                (offset + frame_size crc32 crc32_u32 f)
                (after_update-IsOpen a b id p.previous_lsn p.next_lsn done h positive one.fits.lsn c
                  checksum position) in
            (
              last,
              (
                IsOpen-IsUnchanged h one.fits.lsn,
                after,
                accept-update a b id p.previous_lsn p.next_lsn done h positive one.fits.lsn c
                    checksum position,
                steps,
              ),
              rw (append_assoc done (c ∷ []) cs) at open_last,
            );
      }

  pub plan_updates-Plans :
      (id start : ℕ) (p q : OpenPlan) (cs : List LogCommand)
      → plan_updates crc32 collecting id start p cs ≡ ok q
      → All HasLsn cs
      → 0 < id
      → id ≤ p.next_lsn
      → p.next_lsn < 2 ^ 64
      → p.previous_lsn < 2 ^ 64
      → PlansUpdates id p q cs
  unfolding plan_updates log_bytes
  plan_updates-Plans id start p q [] h has positive known next previous =
      let same : p ≡ q = eq_of_ok p q h in
      subst (λ x. PlansUpdates id p x []) same
        (record {
          frames = [];
          bytes = sym (append-nil p.bytes);
          fits = tt;
          next = next;
          known = known;
          previous = previous;
          kept = λ g. g;
          begun = λ ne. absurd (ne refl);
          accepted = λ a b done segment_id offset k.
              (b, (IsOpen-IsUnchanged k next, refl), rw (append-nil done) k);
        })
  plan_updates-Plans id start p q (c ∷ cs) h has positive known next previous =
      let (r, first, later) = bind-ok_lem (plan_update crc32 collecting id start p c) _ q h in
      let one =
        plan_update-Plans id start p r c first has.0 (omega (arith, known, next)) previous in
      let to =
        with_update crc32 collecting id start p c
          (frame_bytes crc32 crc32_u32 (update_frame id p.previous_lsn p.next_lsn c)) in
      let number : r.next_lsn ≡ p.next_lsn + 1 =
        unfold with_update in ap (λ x. x.next_lsn) one.after in
      let last : r.previous_lsn ≡ p.next_lsn =
        unfold with_update in ap (λ x. x.previous_lsn) one.after in
      let rest =
        plan_updates-Plans id start r q cs later has.1 positive (omega (arith, number, known))
          (omega (arith, number, one.bound)) (omega (arith, last, next)) in
      cons-Plans id start p q c cs positive known
        (subst (λ x. PlansUpdate id start p x c) one.after one)
        (subst (λ x. PlansUpdates id x q cs) one.after rest)
