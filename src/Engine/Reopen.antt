-- ===== src/Engine/Reopen.antt =====
-- An engine in memory, and the engine that is opened again on what its log holds.
use mathlib.Core.Path.{subst}
use cere_db.Base.{
  ℕ, ◌<◌, ◌^◌, ◌≡◌, refl, ap, ◌∙◌, not, max, ◌||◌, Bool, Bool-cases, inl, inr, none, some, List, [],
  ◌∷◌, arith, All,
}
use cere_db.Error.{ok, bind-ok_lem, eq_of_ok, ◌>>=◌}
use cere_db.Bytes.{Bytes}
use cere_db.LogStore.{LogCommand}
use cere_db.Admission.{BatchOperation}
use cere_db.Wal.{Analysis}
use cere_db.Wal.Manager.{WalManager, new_inner, recover_records}
use cere_db.Wal.Segments.{Segments}
use cere_db.Wal.Owner.{register_checkpoint_owner}
use cere_db.Wal.Plan.Updates.{HasLsn}
use cere_db.Wal.Plan.Prefix.{concat}
use cere_db.Wal.Recovery.{redo}
use cere_db.Wal.Recovery.Sound.{commands}
use cere_db.Wal.Logged.Flags.{IsLogged-flags}
use cere_db.Wal.Logged.{IsLogged, analyze_committed-IsLogged}
use cere_db.Writes.{WriteComponent, build_commands, build_groups}
use cere_db.Engine.{
  Recovered, nothing_recovered, build_recovered_memtable, reclaim_again, open_engine,
}
use cere_db.Engine.Versions.{
  apply_all, apply_all-append, build_from-committed_records, IsPlain, Reflects,
  build_commands-Built,
}

abbrev rebuilt : Analysis → Recovered
rebuilt a = apply_all nothing_recovered (commands a)

-- The groups of requests, like the commands of each.
pub record BuiltGroups (lsn next_lsn : ℕ) (groups : List (List LogCommand)) : Type 0 where
  pub fits : All (All HasLsn) groups
  pub plain : All (All IsPlain) groups
  pub last : (m : Recovered) → m.max_lsn ≡ lsn → (apply_all m (concat groups)).max_lsn ≡ next_lsn

pub build_groups-Built :
    (lsn next_lsn : ℕ) (requests : List (List BatchOperation)) (groups : List (List LogCommand))
    → build_groups lsn requests ≡ ok (groups, next_lsn)
    → BuiltGroups lsn next_lsn groups
unfolding build_groups
build_groups-Built lsn next_lsn [] groups h =
    let empty : [] ≡ groups = ap (λ x. x.0) (eq_of_ok ([], lsn) (groups, next_lsn) h) in
    let same : lsn ≡ next_lsn = ap (λ x. x.1) (eq_of_ok ([], lsn) (groups, next_lsn) h) in
    subst (λ x. BuiltGroups lsn next_lsn x) empty
      (record { fits = tt; plain = tt; last = λ m e. e ∙ same })
build_groups-Built lsn next_lsn (operations ∷ requests) groups h =
    let (c, first, h1) = bind-ok_lem (build_commands lsn operations) _ (groups, next_lsn) h in
    let (r, later, g) = bind-ok_lem (build_groups c.1 requests) _ (groups, next_lsn) h1 in
    let one = build_commands-Built lsn c.1 operations c.0 first in
    let rest = build_groups-Built c.1 r.1 requests r.0 later in
    let whole : c.0 ∷ r.0 ≡ groups =
      ap (λ x. x.0) (eq_of_ok (c.0 ∷ r.0, r.1) (groups, next_lsn) g) in
    let same : r.1 ≡ next_lsn = ap (λ x. x.1) (eq_of_ok (c.0 ∷ r.0, r.1) (groups, next_lsn) g) in
    subst (λ x. BuiltGroups lsn next_lsn x) whole
      (record {
        fits = (one.fits, rest.fits);
        plain = (one.plain, rest.plain);
        last = λ m e.
            ap (λ x. x.max_lsn) (apply_all-append m c.0 (concat r.0))
            ∙ rest.last (apply_all m c.0) (one.last m e)
            ∙ same;
      })

module _ (crc32 : Bytes → ℕ) (crc32_u32 : (bs : Bytes) → crc32 bs < 2 ^ 32) where
  -- An engine whose memtable, its size and sequence number are those of its log, which has no
  -- checkpoint.
  pub record Mirrors (s : WriteComponent) (a : Analysis) : Type 0 where
    pub logged : IsLogged crc32 crc32_u32 Bool.false s.wal_manager a
    pub unchecked : s.wal_manager.checkpoint ≡ none
    pub reflects : Reflects s (rebuilt a)
    pub sequence : (rebuilt a).max_lsn ≡ s.sequence_number

  registered-Mirrors :
      (token : ℕ) (w : WalManager) (a : Analysis)
      → IsLogged crc32 crc32_u32 Bool.false w a
      → w.checkpoint ≡ none
      → Mirrors
          (record {
            memtable = (rebuilt a).memtable;
            memtable_size = (rebuilt a).total_size;
            sequence_number = max (rebuilt a).max_lsn 0;
            wal_manager = (register_checkpoint_owner token w).0;
            checkpoint_owner = (register_checkpoint_owner token w).1;
          })
          a
  unfolding register_checkpoint_owner
  registered-Mirrors token w a h e =
      elim (Bool-cases (not w.checkpoint_owner || w.checkpoint_owner_registered)) [
        | inl t ↦
            rw (t, register_checkpoint_owner)
              (record {
                logged = h;
                unchecked = e;
                reflects = record { memtable = refl; size = refl };
                sequence = ground arith;
              })
        | inr f ↦
            rw (f, register_checkpoint_owner)
              (record {
                logged = IsLogged-flags crc32 crc32_u32 w a w.raw_writes Bool.true (some token) h;
                unchecked = e;
                reflects = record { memtable = refl; size = refl };
                sequence = ground arith;
              })
      ]

  recover_records-rebuilt :
      (w : WalManager) (a : Analysis)
      → IsLogged crc32 crc32_u32 Bool.false w a
      → (recover_records crc32 w >>= λ rs. ok (build_recovered_memtable rs)) ≡ ok (rebuilt a)
  unfolding recover_records redo build_recovered_memtable
  recover_records-rebuilt w a h =
      rw (analyze_committed-IsLogged crc32 crc32_u32 Bool.false w a h, h.sound.modern)
        (ap (λ m. ok m)
          (build_from-committed_records nothing_recovered a.committed_transactions a.updates))

  -- The engine that is opened on a log without a checkpoint.
  pub open_engine-Mirrors :
      (token max_segment_size : ℕ) (files : Segments) (w : WalManager) (a : Analysis)
      → new_inner crc32 files max_segment_size none Bool.true ≡ ok w
      → IsLogged crc32 crc32_u32 Bool.false w a
      → w.checkpoint ≡ none
      → (s : WriteComponent) × (open_engine crc32 token files max_segment_size none ≡ ok s)
        × Mirrors s a
        × ((s.memtable ≡ (rebuilt a).memtable)
            × (s.memtable_size ≡ (rebuilt a).total_size)
            × (s.sequence_number ≡ (rebuilt a).max_lsn))
  unfolding open_engine reclaim_again
  open_engine-Mirrors token max_segment_size files w a opened h e =
      let (rs, read, built) =
        bind-ok_lem (recover_records crc32 w) _ (rebuilt a) (recover_records-rebuilt w a h) in
      let same : build_recovered_memtable rs ≡ rebuilt a =
        eq_of_ok (build_recovered_memtable rs) (rebuilt a) built in
      (
        _,
        rw (opened, read, same) refl,
        registered-Mirrors token w a h e,
        (refl, refl, ground arith),
      )
