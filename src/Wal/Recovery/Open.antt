-- ===== src/Wal/Recovery/Open.antt =====
-- A transaction while its frames are accepted.
use cere_db.Base.{
  ℕ, ◌+◌, ◌%◌, ◌≤◌, ◌<◌, ◌^◌, ◌≡◌, ◌≢◌, refl, sym, ap, ◌∙◌, false, ◌==◌, ==_refl, List, [], ◌∷◌,
  ◌++◌, append_assoc, append-nil, arith, All, All-append, All-map,
}
use cere_db.Error.{ok}
use cere_db.Ord.{nat_ord}
use cere_db.TreeMap
use cere_db.LogStore.{LogCommand}
use cere_db.Wal.{TransactionRecord, update, commit, FramePosition, LoggedUpdate, Analysis}
use cere_db.Wal.Plan.{update_frame, commit_frame}
use cere_db.Wal.Recovery.{
  has_id, previous_of, breaks_chain, accept_update, accept_commit, accept_record, accept,
}
use cere_db.Wal.Recovery.Sound.{
  has_id-insert, committed_commands, committed_commands-insert, committed_commands-hit,
  committed_commands-miss, IsOlder, IsSound, commands, previous_of-insert,
}

-- Of the transaction `id` that has begun after `a`, the commands `cs` are accepted; its last frame is
-- `previous_lsn` and the next frame of the log is `lsn`.
pub record IsOpen (a b : Analysis) (id previous_lsn lsn : ℕ) (cs : List LogCommand) : Type 0 where
  pub sound : IsSound b
  pub next : b.latest_lsn + 1 ≡ lsn
  pub known : id ≤ lsn
  pub previous : previous_of id b ≡ previous_lsn
  pub fresh : has_id id b.committed_transactions ≡ false
  pub pending :
      committed_commands (TreeMap.insert id tt b.committed_transactions) b.updates
      ≡ commands a ++ cs
  pub closed : commands b ≡ commands a

pub start-IsOpen :
    (a : Analysis) (id : ℕ) → IsSound a → a.latest_lsn + 1 ≡ id → IsOpen a a id 0 id []
start-IsOpen a id s e = record {
  sound = s;
  next = e;
  known = omega arith;
  previous = s.previous id (omega (arith, e));
  fresh = s.committed id (omega (arith, e));
  pending =
      committed_commands-insert a.committed_transactions a.latest_lsn id a.updates
        (omega (arith, e)) s.updates
      ∙ sym (append-nil (commands a));
  closed = refl;
}

IsOlder-weaken :
    (n m : ℕ) (us : List LoggedUpdate) → n ≤ m → All (IsOlder n) us → All (IsOlder m) us
IsOlder-weaken n m us h = All-map (λ (u : LoggedUpdate) (k : IsOlder n u). omega (arith, h, k)) us

module _ (a b : Analysis) (id previous_lsn lsn : ℕ) (cs : List LogCommand)
    (h : IsOpen a b id previous_lsn lsn cs) (positive : 0 < id) (small : lsn < 2 ^ 64) where
  keeps_chain :
      (t : TransactionRecord)
      → breaks_chain b
          (record { lsn = lsn; transaction_id = id; previous_lsn = previous_lsn; body = t })
        ≡ false
  unfolding breaks_chain
  keeps_chain t =
      let wraps : (b.latest_lsn + 1) % 2 ^ 64 ≡ lsn = omega (arith, h.next, small) in
      rw (wraps, h.fresh, h.previous) (ground (arith, positive))

  later_previous :
      (d : Analysis)
      → d.previous_lsns ≡ TreeMap.insert id lsn b.previous_lsns
      → (k : ℕ) → lsn < k
      → previous_of k d ≡ 0
  later_previous d e k g =
      let other : (k == id) ≡ false = ground (arith, g, h.known) in
      previous_of-insert id lsn k b d e ∙ rw other (h.sound.previous k (omega (arith, g, h.next)))

  module _ (c : LogCommand) (checksum : ℕ) (position : FramePosition) where
    abbrev pub after_update : Analysis
    after_update = accept_update b (update_frame id previous_lsn lsn c) c checksum position

    pub accept-update :
        accept b (update_frame id previous_lsn lsn c) checksum position ≡ ok after_update
    unfolding accept
    accept-update = rw (keeps_chain (update c)) refl

    after_update-IsSound : IsSound after_update
    unfolding accept_update
    after_update-IsSound = record {
      updates =
          All-append (IsOlder lsn) b.updates (_ ∷ [])
            (IsOlder-weaken b.latest_lsn lsn b.updates (omega (arith, h.next)) h.sound.updates)
            (h.known, tt);
      previous = λ k g. later_previous after_update refl k g;
      committed = λ k g. h.sound.committed k (omega (arith, g, h.next));
      modern = h.sound.modern;
    }

    pub after_update-IsOpen : IsOpen a after_update id lsn (lsn + 1) (cs ++ c ∷ [])
    unfolding accept_update
    after_update-IsOpen = record {
      sound = after_update-IsSound;
      next = refl;
      known = omega (arith, h.known);
      previous = previous_of-insert id lsn id b after_update refl ∙ rw (==_refl id) refl;
      fresh = h.fresh;
      pending =
          committed_commands-hit (TreeMap.insert id tt b.committed_transactions) b.updates _
            (has_id-insert id id b.committed_transactions ∙ rw (==_refl id) refl)
          ∙ ap (λ xs. xs ++ c ∷ []) h.pending
          ∙ append_assoc (commands a) cs (c ∷ []);
      closed = committed_commands-miss b.committed_transactions b.updates _ h.fresh ∙ h.closed;
    }

  module _ (begun : previous_lsn ≢ 0) (checksum : ℕ) (position : FramePosition) where
    abbrev pub after_commit : Analysis
    after_commit = accept_commit b (commit_frame id previous_lsn lsn) position

    pub accept-commit :
        accept b (commit_frame id previous_lsn lsn) checksum position ≡ ok after_commit
    unfolding accept accept_record
    accept-commit =
        let nonzero : (previous_lsn == 0) ≡ false = ground (arith, begun) in
        rw (keeps_chain commit, h.previous, nonzero) refl

    pub after_commit-IsSound : IsSound after_commit
    unfolding accept_commit
    after_commit-IsSound = record {
      updates = IsOlder-weaken b.latest_lsn lsn b.updates (omega (arith, h.next)) h.sound.updates;
      previous = λ k g. later_previous after_commit refl k g;
      committed = λ k g.
          let other : (k == id) ≡ false = ground (arith, g, h.known) in
          has_id-insert id k b.committed_transactions
          ∙ rw other (h.sound.committed k (omega (arith, g, h.next)));
      modern = h.sound.modern;
    }

    pub commands-after_commit : commands after_commit ≡ commands a ++ cs
    unfolding accept_commit
    commands-after_commit = h.pending

    pub latest-after_commit : after_commit.latest_lsn ≡ lsn
    unfolding accept_commit
    latest-after_commit = refl
