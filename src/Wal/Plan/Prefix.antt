-- ===== src/Wal/Plan/Prefix.antt =====
-- The transactions of a group that an analysis has, and what the plan of a group is.
use cere_db.Base.{
  ℕ, ◌+◌, ◌<◌, ◌^◌, ◌≡◌, refl, sym, ap, ◌∙◌, Bool, List, [], ◌∷◌, ◌++◌, append_assoc, append-nil,
  length, All, All-append,
}
use cere_db.Bytes.{Bytes}
use cere_db.LogStore.{LogCommand}
use cere_db.Wal.{Frame, Analysis}
use cere_db.Wal.Codec.RoundTrip.{FitsFrame}
use cere_db.Wal.Log.{log_bytes, log_bytes-append}
use cere_db.Wal.Log.Steps.{Steps, Steps-map, Steps-append}
use cere_db.Wal.Plan.{Plan}
use cere_db.Wal.Plan.Updates.{IsUnchanged}
use cere_db.Wal.Recovery.Sound.{IsSound, commands}

-- The commands of transactions.
abbrev pub concat : List (List LogCommand) → List LogCommand
concat [] = []
concat (cs ∷ groups) = cs ++ concat groups

-- An analysis that has the commands of `a` and of the first transactions of a group, and no others.
pub record HasPrefix (a : Analysis) (groups : List (List LogCommand)) (b : Analysis) : Type 0 where
  pub sound : IsSound b
  pub bound : b.latest_lsn + 1 < 2 ^ 64
  pub done : List (List LogCommand)
  pub rest : List (List LogCommand)
  pub split : groups ≡ done ++ rest
  pub same : commands b ≡ commands a ++ concat done

all_commands :
    (a b : Analysis) (cs ds : List LogCommand)
    → commands b ≡ commands a ++ concat (cs ∷ [])
    → commands b ++ ds ≡ commands a ++ (cs ++ ds)
all_commands a b cs ds e =
    ap (λ xs. xs ++ ds) (e ∙ ap (λ ys. commands a ++ ys) (append-nil cs))
    ∙ append_assoc (commands a) cs ds

module _ (crc32 : Bytes → ℕ) (crc32_u32 : (bs : Bytes) → crc32 bs < 2 ^ 32)
    (collecting : Bool) where
  -- What the plan of a group adds to that of the transactions before.
  pub record PlansGroup (p q : Plan) (groups : List (List LogCommand)) : Type 0 where
    pub frames : List Frame
    pub bytes : q.bytes ≡ p.bytes ++ log_bytes crc32 crc32_u32 frames
    pub fits : All FitsFrame frames
    pub next : q.next_lsn < 2 ^ 64
    pub positive : 0 < q.next_lsn
    pub accepted :
        (a : Analysis) (segment_id offset : ℕ)
        → IsSound a
        → a.latest_lsn + 1 ≡ p.next_lsn
        → (b : Analysis) × Steps crc32 crc32_u32 (HasPrefix a groups) segment_id a offset frames b
          × IsSound b
          × (b.latest_lsn + 1 ≡ q.next_lsn)
          × (commands b ≡ commands a ++ concat groups)

  pub unchanged-HasPrefix :
      (a : Analysis) (groups : List (List LogCommand)) (b : Analysis)
      → IsUnchanged a b
      → HasPrefix a groups b
  unchanged-HasPrefix a groups b u = record {
    sound = u.sound;
    bound = u.bound;
    done = [];
    rest = groups;
    split = refl;
    same = u.same ∙ sym (append-nil (commands a));
  }

  more-HasPrefix :
      (a : Analysis) (cs : List LogCommand) (groups : List (List LogCommand)) (x : Analysis)
      → HasPrefix a (cs ∷ []) x
      → HasPrefix a (cs ∷ groups) x
  more-HasPrefix a cs groups x h = record {
    sound = h.sound;
    bound = h.bound;
    done = h.done;
    rest = h.rest ++ groups;
    split = ap (λ gs. gs ++ groups) h.split ∙ append_assoc h.done h.rest groups;
    same = h.same;
  }

  later-HasPrefix :
      (a b : Analysis) (cs : List LogCommand) (groups : List (List LogCommand))
      → commands b ≡ commands a ++ concat (cs ∷ [])
      → (x : Analysis) → HasPrefix b groups x
      → HasPrefix a (cs ∷ groups) x
  later-HasPrefix a b cs groups e x h = record {
    sound = h.sound;
    bound = h.bound;
    done = cs ∷ h.done;
    rest = h.rest;
    split = ap (λ gs. cs ∷ gs) h.split;
    same = h.same ∙ all_commands a b cs (concat h.done) e;
  }

  pub cons-Plans :
      (p r q : Plan) (cs : List LogCommand) (groups : List (List LogCommand))
      → PlansGroup p r (cs ∷ [])
      → PlansGroup r q groups
      → PlansGroup p q (cs ∷ groups)
  cons-Plans p r q cs groups one rest = record {
    frames = one.frames ++ rest.frames;
    bytes =
        rest.bytes
        ∙ ap (λ x. x ++ log_bytes crc32 crc32_u32 rest.frames) one.bytes
        ∙ append_assoc p.bytes (log_bytes crc32 crc32_u32 one.frames)
            (log_bytes crc32 crc32_u32 rest.frames)
        ∙ ap (λ x. p.bytes ++ x) (sym (log_bytes-append crc32 crc32_u32 one.frames rest.frames));
    fits = All-append FitsFrame one.frames rest.frames one.fits rest.fits;
    next = rest.next;
    positive = rest.positive;
    accepted = λ a segment_id offset s e.
        let (b, steps, sound, last, all) = one.accepted a segment_id offset s e in
        let there = offset + length (log_bytes crc32 crc32_u32 one.frames) in
        let (c, more, sound', last', all') = rest.accepted b segment_id there sound last in
        (
          c,
          Steps-append crc32 crc32_u32 (HasPrefix a (cs ∷ groups)) segment_id a b c offset
              one.frames rest.frames
              (Steps-map crc32 crc32_u32 (HasPrefix a (cs ∷ [])) (HasPrefix a (cs ∷ groups))
                segment_id a b offset one.frames (more-HasPrefix a cs groups) steps)
              (Steps-map crc32 crc32_u32 (HasPrefix b groups) (HasPrefix a (cs ∷ groups)) segment_id
                b c there rest.frames (later-HasPrefix a b cs groups all) more),
          sound',
          last',
          all' ∙ all_commands a b cs (concat groups) all,
        );
  }
