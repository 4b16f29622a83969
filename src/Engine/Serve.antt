-- ===== src/Engine/Serve.antt =====
-- The engine from an empty directory through requests that succeed.
use mathlib.Core.Path.{subst}
use cere_db.Base.{
  ℕ, ◌<◌, ◌^◌, ◌≡◌, refl, sym, ap, ◌∙◌, Bool, Bool-cases, inl, inr, Option, none, List, [], ◌∷◌,
  ◌++◌, arith, All,
}
use cere_db.Error.{Result, Result-cases, ok, bind-ok_lem, eq_of_ok, ◌>>=◌}
use cere_db.Bytes.{Bytes}
use cere_db.LogStore.{LogCommand}
use cere_db.Admission.{BatchOperation}
use cere_db.Wal.{Analysis, WalValueRef, no_analysis}
use cere_db.Wal.Manager.{WalManager, Write, append_transactions}
use cere_db.Wal.Owner.{mark_untracked_mutation, same_token, append_engine_transactions}
use cere_db.Wal.Plan.Updates.{HasLsn}
use cere_db.Wal.Plan.Prefix.{concat}
use cere_db.Wal.Recovery.Sound.{commands}
use cere_db.Wal.Logged.{IsLogged}
use cere_db.Wal.Logged.Answer.{append_transactions-Answers}
use cere_db.Wal.Logged.Append.{append_transactions-KeepsPrefix}
use cere_db.Wal.Logged.Reopen.{new_inner-HasLog}
use cere_db.Wal.Logged.Write.{IsLogged-HasLog}
use cere_db.Wal.Session.Recovery.{fresh, fresh-IsLogged, new_inner-fresh}
use cere_db.Writes.{WriteComponent, build_groups, append_groups, write_requests}
use cere_db.Engine.{nothing_recovered, open_engine}
use cere_db.Engine.Versions.{
  apply_all, apply_all-append, Reflects, append_groups-Reflects, append_groups-wal,
}
use cere_db.Wal.Logged.Flags.{IsLogged-flags}
use cere_db.Engine.Reopen.{build_groups-Built, Mirrors, open_engine-Mirrors}

-- Requests one after the other, each with what becomes of its write; the first error ends it.
unfoldable pub serve :
    (Bytes → ℕ) → WriteComponent → List (List (List BatchOperation) × Write) → Result WriteComponent
serve crc32 s [] = ok s
serve crc32 s ((requests, outcome) ∷ rest) =
    let (t, answer) = write_requests crc32 s requests outcome in answer >>= λ _. serve crc32 t rest

module _ (crc32 : Bytes → ℕ) (crc32_u32 : (bs : Bytes) → crc32 bs < 2 ^ 32) where
  abbrev IsAppended : Analysis → List (List LogCommand) → WalManager → Type 0
  IsAppended a groups w =
      (b : Analysis) × IsLogged crc32 crc32_u32 Bool.false w b
      × (commands b ≡ commands a ++ concat groups)
      × (w.checkpoint ≡ none)

  append_transactions-IsAppended :
      (w : WalManager) (a : Analysis) (groups : List (List LogCommand)) (outcome : Write)
      (receipts : List (List WalValueRef))
      → IsLogged crc32 crc32_u32 Bool.false w a
      → w.checkpoint ≡ none
      → All (All HasLsn) groups
      → (append_transactions crc32 w groups Bool.false outcome).1 ≡ ok receipts
      → IsAppended a groups (append_transactions crc32 w groups Bool.false outcome).0
  append_transactions-IsAppended w a groups outcome receipts h e has answer =
      let k =
        append_transactions-KeepsPrefix crc32 crc32_u32 Bool.false w a groups Bool.false outcome h
          has in
      elim (append_transactions-Answers crc32 crc32_u32 Bool.false w a groups Bool.false outcome h
        has) [
          | inl (rs, x, (b, logged, all)) ↦ (b, logged, all, k.checkpoint ∙ e)
          | inr (x, refused, state) ↦ absurd (ground (arith, answer, refused))
        ]

  append_engine_transactions-IsAppended :
      (w : WalManager) (a : Analysis) (groups : List (List LogCommand)) (owner : Option ℕ)
      (outcome : Write) (receipts : List (List WalValueRef))
      → IsLogged crc32 crc32_u32 Bool.false w a
      → w.checkpoint ≡ none
      → All (All HasLsn) groups
      → (append_engine_transactions crc32 w groups owner Bool.false outcome).1 ≡ ok receipts
      → IsAppended a groups (append_engine_transactions crc32 w groups owner Bool.false outcome).0
  unfolding append_engine_transactions
  append_engine_transactions-IsAppended w a groups owner outcome receipts h e has answer =
      elim (Bool-cases (same_token w.checkpoint_token owner)) [
        | inl t ↦
            rw (t, append_engine_transactions)
              (append_transactions-IsAppended w a groups outcome receipts h e has
                (rw (t, append_engine_transactions) at answer))
        | inr f ↦
            let raw =
              IsLogged-flags crc32 crc32_u32 w a Bool.true w.checkpoint_owner_registered
                w.checkpoint_token h in
            rw (f, append_engine_transactions)
              (append_transactions-IsAppended (mark_untracked_mutation w) a groups outcome receipts
                raw e has (rw (f, append_engine_transactions) at answer))
      ]

  write_requests-Mirrors :
      (s t : WriteComponent) (a : Analysis) (requests : List (List BatchOperation))
      (outcome : Write) (u : Unit {0})
      → Mirrors crc32 crc32_u32 s a
      → write_requests crc32 s requests outcome ≡ (t, ok u)
      → (b : Analysis) × Mirrors crc32 crc32_u32 t b
  unfolding write_requests
  write_requests-Mirrors s t a requests outcome u m e =
      elim (Result-cases (build_groups s.sequence_number requests)) [
        | inr (x, q) ↦ absurd (ground (arith, (rw (q, write_requests) at e)))
        | inl ((groups, next_lsn), q) ↦
            let built = build_groups-Built s.sequence_number next_lsn requests groups q in
            let wal =
              (append_engine_transactions crc32 s.wal_manager groups s.checkpoint_owner Bool.false
                outcome).0 in
            elim (Result-cases
              (append_engine_transactions crc32 s.wal_manager groups s.checkpoint_owner Bool.false
                outcome).1) [
                  | inr (x, answer) ↦ absurd (ground (arith, (rw (q, write_requests, answer) at e)))
                  | inl (receipts, answer) ↦
                      let after : WriteComponent =
                        record (append_groups (record s { wal_manager = wal }) groups) {
                          sequence_number = next_lsn;
                        } in
                      let same : after ≡ t = ap (λ x. x.0) (rw (q, write_requests, answer) at e) in
                      let (b, logged, all, unchecked) =
                        append_engine_transactions-IsAppended s.wal_manager a groups
                          s.checkpoint_owner outcome receipts m.logged m.unchecked built.fits
                          answer in
                      let kept = append_groups-wal (record s { wal_manager = wal }) groups in
                      let before : Reflects (record s { wal_manager = wal })
                          (apply_all nothing_recovered (commands a)) =
                        record { memtable = m.reflects.memtable; size = m.reflects.size } in
                      let versions =
                        append_groups-Reflects (record s { wal_manager = wal })
                          (apply_all nothing_recovered (commands a)) groups before built.plain in
                      let total : apply_all nothing_recovered (commands b)
                          ≡ apply_all (apply_all nothing_recovered (commands a)) (concat groups) =
                        ap (apply_all nothing_recovered) all
                        ∙ apply_all-append nothing_recovered (commands a) (concat groups) in
                      let mirrors : Mirrors crc32 crc32_u32 after b = record {
                        logged = rw kept logged;
                        unchecked = rw kept unchecked;
                        reflects =
                            rw total
                              (record { memtable = versions.memtable; size = versions.size });
                        sequence =
                            ap (λ x. x.max_lsn) total
                            ∙ built.last (apply_all nothing_recovered (commands a)) m.sequence;
                      } in
                      (b, subst (λ x. Mirrors crc32 crc32_u32 x b) same mirrors)
                ]
      ]

  serve-Mirrors :
      (s t : WriteComponent) (a : Analysis) (all : List (List (List BatchOperation) × Write))
      → Mirrors crc32 crc32_u32 s a
      → serve crc32 s all ≡ ok t
      → (b : Analysis) × Mirrors crc32 crc32_u32 t b
  unfolding serve
  serve-Mirrors s t a [] m e = (a, subst (λ x. Mirrors crc32 crc32_u32 x a) (eq_of_ok s t e) m)
  serve-Mirrors s t a ((requests, outcome) ∷ rest) m e =
      let (u, answer, later) =
        bind-ok_lem (write_requests crc32 s requests outcome).1
          (λ _. serve crc32 (write_requests crc32 s requests outcome).0 rest) t e in
      let (b, mirrors) =
        write_requests-Mirrors s (write_requests crc32 s requests outcome).0 a requests outcome u m
          (ap (λ x. ((write_requests crc32 s requests outcome).0, x)) answer) in
      serve-Mirrors (write_requests crc32 s requests outcome).0 t b rest mirrors later

  -- An engine whose memtable is that of its log is found again on its directory.
  open_engine-again :
      (token max_segment_size : ℕ) (t : WriteComponent) (b : Analysis)
      → Mirrors crc32 crc32_u32 t b
      → (r : WriteComponent) × (open_engine crc32 token t.wal_manager.files max_segment_size none
          ≡ ok r)
        × (r.memtable ≡ t.memtable)
        × (r.memtable_size ≡ t.memtable_size)
        × (r.sequence_number ≡ t.sequence_number)
  open_engine-again token max_segment_size t b m =
      let left = IsLogged-HasLog crc32 crc32_u32 Bool.false t.wal_manager b m.logged in
      let (v, again, logged, unchecked, size) =
        new_inner-HasLog crc32 crc32_u32 none max_segment_size Bool.true t.wal_manager.files
          m.logged.origin b (rw m.unchecked at m.logged.starts) (rw m.unchecked at left) in
      let (r, reopened, mirrors, (memtable, total, sequence)) =
        open_engine-Mirrors crc32 crc32_u32 token max_segment_size t.wal_manager.files v b again
          logged unchecked in
      (
        r,
        reopened,
        memtable ∙ sym m.reflects.memtable,
        total ∙ sym m.reflects.size,
        sequence ∙ m.sequence,
      )

  -- An engine that is opened on an empty directory and takes requests that all succeed has the memtable,
  -- the memtable's size and the sequence number that an engine has which is opened on its directory,
  -- and this opening succeeds. Checksums have 32 bits.
  pub open_engine-serve :
      (token other_token max_segment_size : ℕ) (all : List (List (List BatchOperation) × Write))
      (t : WriteComponent)
      → (open_engine crc32 token [] max_segment_size none >>= λ s. serve crc32 s all) ≡ ok t
      → (r : WriteComponent) × (open_engine crc32 other_token t.wal_manager.files max_segment_size
            none
          ≡ ok r)
        × (r.memtable ≡ t.memtable)
        × (r.memtable_size ≡ t.memtable_size)
        × (r.sequence_number ≡ t.sequence_number)
  open_engine-serve token other_token max_segment_size all t e =
      let w = fresh crc32 crc32_u32 max_segment_size Bool.true in
      let (s, opened, first, about) =
        open_engine-Mirrors crc32 crc32_u32 token max_segment_size [] w no_analysis
          (new_inner-fresh crc32 crc32_u32 max_segment_size Bool.true)
          (fresh-IsLogged crc32 crc32_u32 max_segment_size Bool.true) refl in
      let (b, m) = serve-Mirrors s t no_analysis all first (rw opened at e) in
      open_engine-again other_token max_segment_size t b m
