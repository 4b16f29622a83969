-- ===== src/Engine/Versions.antt =====
-- The memtable of commands, as the writer fills it and as a recovery builds it.
use mathlib.Core.Path.{subst}
use cere_db.Base.{
  ℕ, ◌+◌, ◌^◌, ◌≡◌, refl, sym, ap, ◌∙◌, true, ltb, Bool-cases, inl, inr, List, [], ◌∷◌, ◌++◌,
  length, arith, All, if◌then◌else◌,
}
use cere_db.Error.{ok, bind-ok_lem, eq_of_ok}
use cere_db.Bytes.{Bytes}
use cere_db.Record.{RecordType, put, delete, type_byte}
use cere_db.Memtable
use cere_db.LogStore.{LogCommand}
use cere_db.Admission.{BatchOperation, put_key, delete_key}
use cere_db.Wal.{IdSet, LoggedUpdate}
use cere_db.Wal.Codec.{is_delete}
use cere_db.Wal.Plan.Updates.{HasLsn}
use cere_db.Wal.Plan.Prefix.{concat}
use cere_db.Wal.Recovery.{is_committed, record_of, committed_records}
use cere_db.Wal.Recovery.Sound.{committed_commands}
use cere_db.Writes.{
  WriteComponent, command_of, build_commands, append_to_memtable, append_all, append_groups,
  insert_version,
}
use cere_db.Engine.{Recovered, recovered_value, add_version, recover_version, build_from}

-- The versions of commands, one after the other.
abbrev pub apply_all : Recovered → List LogCommand → Recovered
apply_all m [] = m
apply_all m (c ∷ cs) = apply_all (add_version m c.record_type c.key c.value c.lsn) cs

pub apply_all-append :
    (m : Recovered) (cs ds : List LogCommand)
    → apply_all m (cs ++ ds) ≡ apply_all (apply_all m cs) ds
apply_all-append m [] ds = refl
apply_all-append m (c ∷ cs) ds =
    apply_all-append (add_version m c.record_type c.key c.value c.lsn) cs ds

-- A recovery takes the records as their commands.
recover_version-record_of :
    (m : Recovered) (t : RecordType) (key value : Bytes) (lsn checksum : ℕ)
    → recover_version m (record {
      record_type = type_byte t;
      lsn = lsn;
      key = key;
      value = value;
      checksum = checksum;
    })
      ≡ add_version m t key value lsn
unfolding recover_version
recover_version-record_of m put key value lsn checksum = refl
recover_version-record_of m delete key value lsn checksum = refl

pub build_from-committed_records :
    (m : Recovered) (c : IdSet) (us : List LoggedUpdate)
    → build_from m (committed_records c us) ≡ apply_all m (committed_commands c us)
unfolding build_from committed_records committed_commands record_of
build_from-committed_records m c [] = refl
build_from-committed_records m c (u ∷ us) = elim (Bool-cases (is_committed c u)) [
  | inr e ↦ rw (e, build_from-committed_records m c us) refl
  | inl e ↦
      let d = u.command in
      let one = recover_version-record_of m d.record_type d.key d.value d.lsn u.checksum in
      rw (e, build_from, one)
        (build_from-committed_records (add_version m d.record_type d.key d.value d.lsn) c us)
]

-- A delete has no value.
abbrev pub IsPlain : LogCommand → Type 0
IsPlain c = recovered_value c.record_type c.value ≡ c.value

-- The memtable and its size are those of the versions.
pub record Reflects (s : WriteComponent) (m : Recovered) : Type 0 where
  pub memtable : s.memtable ≡ m.memtable
  pub size : s.memtable_size ≡ m.total_size

added_size :
    (t : RecordType) (key value : Bytes)
    → recovered_value t value ≡ value
    → (if is_delete t then length key else length key + length value)
      ≡ length key + length (recovered_value t value)
unfolding is_delete
added_size put key value h = refl
added_size delete key value h = omega arith

append_to_memtable-Reflects :
    (s : WriteComponent) (m : Recovered) (c : LogCommand)
    → Reflects s m
    → IsPlain c
    → Reflects (append_to_memtable s c) (add_version m c.record_type c.key c.value c.lsn)
unfolding append_to_memtable add_version
append_to_memtable-Reflects s m c h plain = record {
  memtable =
      ap (λ x. insert_version c.key c.lsn (Memtable.new c.value c.record_type c.lsn) x) h.memtable
      ∙ ap (λ v. insert_version c.key c.lsn (Memtable.new v c.record_type c.lsn) m.memtable)
          (sym plain);
  size = omega (arith, h.size, added_size c.record_type c.key c.value plain);
}

append_all-Reflects :
    (s : WriteComponent) (m : Recovered) (cs : List LogCommand)
    → Reflects s m
    → All IsPlain cs
    → Reflects (append_all s cs) (apply_all m cs)
unfolding append_all
append_all-Reflects s m [] h plain = h
append_all-Reflects s m (c ∷ cs) h plain =
    append_all-Reflects (append_to_memtable s c) (add_version m c.record_type c.key c.value c.lsn)
      cs (append_to_memtable-Reflects s m c h plain.0) plain.1

pub append_groups-Reflects :
    (s : WriteComponent) (m : Recovered) (groups : List (List LogCommand))
    → Reflects s m
    → All (All IsPlain) groups
    → Reflects (append_groups s groups) (apply_all m (concat groups))
unfolding append_groups
append_groups-Reflects s m [] h plain = h
append_groups-Reflects s m (cs ∷ groups) h plain = rw (apply_all-append m cs (concat groups)) (
    append_groups-Reflects (append_all s cs) (apply_all m cs) groups
      (append_all-Reflects s m cs h plain.0) plain.1)

append_all-wal :
    (s : WriteComponent) (cs : List LogCommand) → (append_all s cs).wal_manager ≡ s.wal_manager
unfolding append_all append_to_memtable
append_all-wal s [] = refl
append_all-wal s (c ∷ cs) = append_all-wal (append_to_memtable s c) cs

pub append_groups-wal :
    (s : WriteComponent) (groups : List (List LogCommand))
    → (append_groups s groups).wal_manager ≡ s.wal_manager
unfolding append_groups
append_groups-wal s [] = refl
append_groups-wal s (cs ∷ groups) = append_groups-wal (append_all s cs) groups ∙ append_all-wal s cs

-- Commands that are built, and the greatest sequence number with them.
pub record Built (lsn next_lsn : ℕ) (cs : List LogCommand) : Type 0 where
  pub fits : All HasLsn cs
  pub plain : All IsPlain cs
  pub last : (m : Recovered) → m.max_lsn ≡ lsn → (apply_all m cs).max_lsn ≡ next_lsn

pub build_commands-Built :
    (lsn next_lsn : ℕ) (operations : List BatchOperation) (cs : List LogCommand)
    → build_commands lsn operations ≡ ok (cs, next_lsn)
    → Built lsn next_lsn cs
unfolding build_commands add_version
build_commands-Built lsn next_lsn [] cs h =
    let empty : [] ≡ cs = ap (λ x. x.0) (eq_of_ok ([], lsn) (cs, next_lsn) h) in
    let same : lsn ≡ next_lsn = ap (λ x. x.1) (eq_of_ok ([], lsn) (cs, next_lsn) h) in
    subst (λ x. Built lsn next_lsn x) empty
      (record { fits = tt; plain = tt; last = λ m e. e ∙ same })
build_commands-Built lsn next_lsn (operation ∷ operations) cs h =
    elim (Bool-cases (ltb (lsn + 1) (2 ^ 64))) [
      | inr f ↦ absurd (ground (arith, (rw f at h)))
      | inl t ↦
          let (r, e, g) =
            bind-ok_lem (build_commands (lsn + 1) operations) _ (cs, next_lsn) (rw t at h) in
          let c = command_of operation (lsn + 1) in
          let rest = build_commands-Built (lsn + 1) r.1 operations r.0 e in
          let whole : c ∷ r.0 ≡ cs = ap (λ x. x.0) (eq_of_ok (c ∷ r.0, r.1) (cs, next_lsn) g) in
          let same : r.1 ≡ next_lsn = ap (λ x. x.1) (eq_of_ok (c ∷ r.0, r.1) (cs, next_lsn) g) in
          subst (λ x. Built lsn next_lsn x) whole (one operation t r.0 r.1 rest same)
    ]
  where
    one :
        (operation : BatchOperation)
        → ltb (lsn + 1) (2 ^ 64) ≡ true
        → (ds : List LogCommand) (last : ℕ) → Built (lsn + 1) last ds
        → last ≡ next_lsn
        → Built lsn next_lsn (command_of operation (lsn + 1) ∷ ds)
    one (put_key key value) t ds last rest same = record {
      fits = (ground (arith, t), rest.fits);
      plain = (refl, rest.plain);
      last = λ m e. rest.last _ (ground (arith, e)) ∙ same;
    }
    one (delete_key key) t ds last rest same = record {
      fits = (ground (arith, t), rest.fits);
      plain = (refl, rest.plain);
      last = λ m e. rest.last _ (ground (arith, e)) ∙ same;
    }
