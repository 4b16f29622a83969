-- ===== src/Wal/Logged/Reference.antt =====
-- The committed commands of a list of frames, read off the frames themselves, beside what a scan of
-- their bytes collects.
use cere_db.Base.{
  ℕ, ◌+◌, ◌<◌, ◌^◌, ◌≡◌, refl, sym, ap, ◌∙◌, ◌||◌, ◌==◌, Bool, List, [], ◌∷◌, ◌++◌, append_assoc,
  append-nil, arith, All, if◌then◌else◌,
}
use cere_db.Error.{ok, corrupted, bind-ok_lem, eq_of_ok, refuse-ok_lem}
use cere_db.Bytes.{Bytes}
use cere_db.Ord.{nat_ord}
use cere_db.TreeMap
use cere_db.LogStore.{LogCommand}
use cere_db.Wal.{
  TransactionRecord, update, commit, Frame, FramePosition, LoggedUpdate, IdSet, Analysis,
  no_analysis, wal_header_size,
}
use cere_db.Wal.Codec.{frame_body, frame_checksum}
use cere_db.Wal.Codec.RoundTrip.{FitsFrame}
use cere_db.Wal.Log.{accept_frames, frame_size}
use cere_db.Wal.Manager.{commands_of}
use cere_db.Wal.Recovery.{
  has_id, previous_of, breaks_chain, accept_update, accept_commit, accept_record, accept,
  is_committed, redo,
}
use cere_db.Wal.Recovery.Sound.{
  has_id-insert, committed_commands, committed_commands-append, commands,
}
use cere_db.Wal.Scan.{TailHandling, Scanned, position_of, scan_segment_with_tail_handling}
use cere_db.Wal.Scan.Segment.{segment_bytes, scan_segment-whole}
use cere_db.Wal.Logged.Recover.{commands_of-committed_records}

abbrev pub commits_of : ℕ → TransactionRecord → ℕ → Bool
commits_of id (update c) k = Bool.false
commits_of id commit k = k == id

-- Whether the transaction `k` has a commit among the frames.
unfoldable pub has_commit : List Frame → ℕ → Bool
has_commit [] k = Bool.false
has_commit (f ∷ fs) k = commits_of f.transaction_id f.body k || has_commit fs k

abbrev pub update_of : (ℕ → Bool) → ℕ → TransactionRecord → List LogCommand
update_of done id (update c) = if done id then c ∷ [] else []
update_of done id commit = []

-- The updates of the transactions that are done, in the order of the frames.
unfoldable pub updates_of : (ℕ → Bool) → List Frame → List LogCommand
updates_of done [] = []
updates_of done (f ∷ fs) = update_of done f.transaction_id f.body ++ updates_of done fs

-- The commands of the transactions that have a commit.
abbrev pub committed_of : List Frame → List LogCommand
committed_of fs = updates_of (has_commit fs) fs

update_of-same :
    (p q : ℕ → Bool) (id : ℕ) (t : TransactionRecord)
    → ((k : ℕ) → p k ≡ q k)
    → update_of p id t ≡ update_of q id t
update_of-same p q id (update c) h = rw (h id) refl
update_of-same p q id commit h = refl

updates_of-same :
    (p q : ℕ → Bool) (fs : List Frame) → ((k : ℕ) → p k ≡ q k) → updates_of p fs ≡ updates_of q fs
unfolding updates_of
updates_of-same p q [] h = refl
updates_of-same p q (f ∷ fs) h =
    rw (update_of-same p q f.transaction_id f.body h, updates_of-same p q fs h) refl

-- What one frame adds to an analysis.
record Adds (a b : Analysis) (id : ℕ) (t : TransactionRecord) : Type 0 where
  new : List LoggedUpdate
  updates : b.updates ≡ a.updates ++ new
  committed :
      (k : ℕ)
      → has_id k b.committed_transactions ≡ commits_of id t k || has_id k a.committed_transactions
  same : (c : IdSet) → committed_commands c new ≡ update_of (λ k. has_id k c) id t
  legacy : b.legacy ≡ a.legacy

accept_record-Adds :
    (a b : Analysis) (f : Frame) (t : TransactionRecord) (checksum : ℕ) (position : FramePosition)
    → accept_record a f t checksum position ≡ ok b
    → Adds a b f.transaction_id t
unfolding accept_record accept_update accept_commit committed_commands is_committed
accept_record-Adds a b f (update c) checksum position h =
    rw (← eq_of_ok (accept_update a f c checksum position) b h) (record {
      new = _ ∷ [];
      updates = refl;
      committed = λ k. refl;
      same = λ ids. refl;
      legacy = refl;
    })
accept_record-Adds a b f commit checksum position h0 =
    let (begun, h) =
      refuse-ok_lem (previous_of f.transaction_id a == 0) (corrupted "Commit without update")
        (ok (accept_commit a f position)) b h0 in
    rw (← eq_of_ok (accept_commit a f position) b h) (record {
      new = [];
      updates = sym (append-nil a.updates);
      committed = λ k. has_id-insert f.transaction_id k a.committed_transactions ∙ ground arith;
      same = λ ids. refl;
      legacy = refl;
    })

accept-Adds :
    (a b : Analysis) (f : Frame) (checksum : ℕ) (position : FramePosition)
    → accept a f checksum position ≡ ok b
    → Adds a b f.transaction_id f.body
unfolding accept
accept-Adds a b f checksum position h =
    let (chained, taken) = refuse-ok_lem (breaks_chain a f) _ _ b h in
    accept_record-Adds a b f f.body checksum position taken

-- What frames add to an analysis.
record Collects (a b : Analysis) (fs : List Frame) : Type 0 where
  new : List LoggedUpdate
  updates : b.updates ≡ a.updates ++ new
  committed :
      (k : ℕ)
      → has_id k b.committed_transactions ≡ has_commit fs k || has_id k a.committed_transactions
  same : (c : IdSet) → committed_commands c new ≡ updates_of (λ k. has_id k c) fs
  legacy : b.legacy ≡ a.legacy

or_swap : (x y z : Bool) → y || (x || z) ≡ (x || y) || z
or_swap x y z = ground arith

module _ (crc32 : Bytes → ℕ) (crc32_u32 : (bs : Bytes) → crc32 bs < 2 ^ 32) where
  accept_frames-Collects :
      (segment_id : ℕ) (a b : Analysis) (offset : ℕ) (fs : List Frame)
      → accept_frames crc32 crc32_u32 segment_id a offset fs ≡ ok b
      → Collects a b fs
  unfolding accept_frames has_commit updates_of committed_commands
  accept_frames-Collects segment_id a b offset [] h = rw (← eq_of_ok a b h) (record {
    new = [];
    updates = sym (append-nil a.updates);
    committed = λ k. refl;
    same = λ c. refl;
    legacy = refl;
  })
  accept_frames-Collects segment_id a b offset (f ∷ fs) h =
      let size = frame_size crc32 crc32_u32 f in
      let (c, first, later) =
        bind-ok_lem
          (accept a f (frame_checksum crc32 f.lsn (frame_body f))
            (position_of segment_id a offset size))
          (λ x. accept_frames crc32 crc32_u32 segment_id x (offset + size) fs) b h in
      let one = accept-Adds a c f _ _ first in
      let rest = accept_frames-Collects segment_id c b (offset + size) fs later in
      record {
        new = one.new ++ rest.new;
        updates =
            rest.updates
            ∙ ap (λ us. us ++ rest.new) one.updates
            ∙ append_assoc a.updates one.new rest.new;
        committed = λ k.
            rest.committed k
            ∙ ap (λ x. has_commit fs k || x) (one.committed k)
            ∙ or_swap (commits_of f.transaction_id f.body k) (has_commit fs k)
                (has_id k a.committed_transactions);
        same = λ ids.
            committed_commands-append ids one.new rest.new ∙ rw (one.same ids, rest.same ids) refl;
        legacy = rest.legacy ∙ one.legacy;
      }

  -- A scan of a segment from the beginning of a log, whose frames fit their fields and follow each
  -- other, succeeds however the tail is handled, and the commands of its records are those of the
  -- transactions that have a commit among the frames, in the order of the frames. Checksums have 32 bits.
  pub scan_segment-committed_of :
      (t : TailHandling) (segment_id : ℕ) (b : Analysis) (fs : List Frame)
      → All FitsFrame fs
      → accept_frames crc32 crc32_u32 segment_id no_analysis wal_header_size fs ≡ ok b
      → (r : Scanned) × (scan_segment_with_tail_handling crc32 segment_id
            (segment_bytes crc32 crc32_u32 fs)
            t
            no_analysis
          ≡ ok r)
        × (commands_of (redo r.analysis) ≡ ok (committed_of fs))
  unfolding redo has_id TreeMap.get
  scan_segment-committed_of t segment_id b fs fits h =
      let k = accept_frames-Collects segment_id no_analysis b wal_header_size fs h in
      let ids : (n : ℕ) → has_id n b.committed_transactions ≡ has_commit fs n =
        λ n. k.committed n ∙ (ground arith) in
      let all : commands b ≡ committed_of fs =
        ap (committed_commands b.committed_transactions) k.updates
        ∙ k.same b.committed_transactions
        ∙ updates_of-same (λ n. has_id n b.committed_transactions) (has_commit fs) fs ids in
      (
        _,
        scan_segment-whole crc32 crc32_u32 segment_id no_analysis b fs fits h t,
        rw k.legacy (
            commands_of-committed_records b.committed_transactions b.updates
            ∙ ap (λ cs. ok cs) all),
      )
