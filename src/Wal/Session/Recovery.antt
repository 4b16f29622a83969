-- ===== src/Wal/Session/Recovery.antt =====
-- A recovery after a session that began with an empty directory.
use cere_db.Base.{
  ℕ, ◌<◌, ◌^◌, ◌≡◌, refl, sym, ap, ◌∙◌, Bool, none, List, [], ◌∷◌, ◌++◌, append_assoc, append-nil,
  length, arith, All,
}
use cere_db.Error.{Result, ok, ◌>>=◌}
use cere_db.Bytes.{Bytes}
use cere_db.Ord.{nat_ord}
use cere_db.TreeMap
use cere_db.LogStore.{LogCommand}
use cere_db.Wal.{no_analysis}
use cere_db.Wal.Header.{default_header, encode, length-encode_header}
use cere_db.Wal.Log.{log_bytes, accept_frames}
use cere_db.Wal.Scan.Segment.{segment_bytes}
use cere_db.Wal.Manager.{WalManager, new_inner}
use cere_db.Wal.Segments.{
  analysis_from, segment_paths, check_consecutive, is_consecutive, scan_all, active_segment,
  is_missing, create_segment, size_of, ids_of,
}
use cere_db.Wal.Plan.Prefix.{concat}
use cere_db.Wal.Recovery.{previous_of, has_id}
use cere_db.Wal.Recovery.Sound.{IsSound, commands, committed_commands}
use cere_db.Wal.Logged.{IsLogged, entries}
use cere_db.Wal.Logged.Recover.{recover_commands-IsLogged}
use cere_db.Wal.Session.{Use, History, Session, start, run, recover}
use cere_db.Wal.Session.Durable.{Survives, AllowsUse, IsDurable, open-IsDurable}
use cere_db.Wal.Session.Steps.{open_again-IsDurable, run-IsDurable}

no_analysis-IsSound : IsSound no_analysis
unfolding previous_of has_id TreeMap.get
no_analysis-IsSound = record {
  updates = tt;
  previous = λ k h. refl;
  committed = λ k h. refl;
  modern = refl;
}

-- Of an acknowledged group, all commands are left, next to each other.
left-acknowledged :
    (newer older : History) (groups : List (List LogCommand)) (cs : List LogCommand)
    → Survives (newer ++ (groups, Bool.true) ∷ older) cs
    → (before : List LogCommand) × ((after : List LogCommand) × (cs
          ≡ before ++ (concat groups ++ after)))
left-acknowledged [] older groups cs (before, kept, (added, left, e)) =
    let whole : groups ≡ left.done =
      left.split ∙ ap (λ gs. left.done ++ gs) (left.complete refl) ∙ append-nil left.done in
    (
      before,
      (
        [],
        e
            ∙ ap (λ xs. before ++ xs)
                (left.same ∙ ap (λ gs. concat gs) (sym whole) ∙ sym (append-nil (concat groups))),
      ),
    )
left-acknowledged ((gs, acknowledged) ∷ newer) older groups cs (before, kept, (added, left, e)) =
    let (first, (after, f)) = left-acknowledged newer older groups before kept in
    (
      first,
      (
        after ++ added,
        e
            ∙ ap (λ xs. xs ++ added) f
            ∙ append_assoc first (concat groups ++ after) added
            ∙ ap (λ xs. first ++ xs) (append_assoc (concat groups) after added),
      ),
    )

module _ (crc32 : Bytes → ℕ) (crc32_u32 : (bs : Bytes) → crc32 bs < 2 ^ 32) (max_segment_size : ℕ)
    (owner : Bool) where
  abbrev pub fresh : WalManager
  fresh = record {
    files = (0, encode crc32 default_header) ∷ [];
    segment_id = 0;
    size = length (encode crc32 default_header);
    next_lsn = 1;
    poisoned = Bool.false;
    sealed = [];
    checkpoint = none;
    max_segment_size = max_segment_size;
    raw_writes = Bool.false;
    checkpoint_owner = owner;
    checkpoint_owner_registered = Bool.false;
    checkpoint_token = none;
  }

  abbrev first_session : Session
  first_session = record { writer = fresh; history = [] }

  pub new_inner-fresh : new_inner crc32 [] max_segment_size none owner ≡ ok fresh
  unfolding new_inner segment_paths check_consecutive is_consecutive analysis_from scan_all
      active_segment create_segment is_missing TreeMap.get TreeMap.insert TreeMap.remove size_of
      ids_of
  new_inner-fresh = refl

  start-fresh : start crc32 max_segment_size owner ≡ ok first_session
  unfolding start
  start-fresh = rw new_inner-fresh refl

  pub fresh-IsLogged : IsLogged crc32 crc32_u32 Bool.false fresh no_analysis
  unfolding entries segment_bytes log_bytes accept_frames analysis_from
  fresh-IsLogged = record {
    first = 0;
    sealed = [];
    frames = [];
    origin = no_analysis;
    before = no_analysis;
    files = ap (λ bs. (0, bs) ∷ []) (sym (append-nil (encode crc32 default_header)));
    consecutive = (refl, tt);
    floor = λ n e. absurd (ground (arith, e));
    starts = refl;
    fits_sealed = tt;
    fits = tt;
    replays = refl;
    accepted = refl;
    sound = no_analysis-IsSound;
    next = refl;
    bound = omega arith;
    size = omega (arith, length-encode_header crc32);
    healthy = refl;
  }

  run-started :
      (uses : List Use)
      → All AllowsUse uses
      → (s : Session) × ((start crc32 max_segment_size owner >>= λ t. run crc32 t uses) ≡ ok s)
        × IsDurable crc32 crc32_u32 s
  unfolding committed_commands
  run-started uses has =
      let durable = open-IsDurable crc32 crc32_u32 fresh [] no_analysis fresh-IsLogged refl in
      let (s, ran, last) = run-IsDurable crc32 crc32_u32 first_session uses durable has in
      (s, rw start-fresh ran, last)

  recover-durable :
      (s : Session)
      → IsDurable crc32 crc32_u32 s
      → (cs : List LogCommand) × (recover crc32 s ≡ ok cs) × Survives s.history cs
  unfolding recover
  recover-durable s d =
      let (w, opened, (a, logged, kept)) = open_again-IsDurable crc32 crc32_u32 s d in
      (commands a, rw opened (recover_commands-IsLogged crc32 crc32_u32 w a logged), kept)

  -- Appends under the token of an owner or without one, torn writes, registrations of an owner of
  -- checkpoints, rotations that succeed or are interrupted, checkpoints and openings in any order: the
  -- session runs to its end, the directory that it leaves can be opened, and a recovery gives, group by
  -- group in the order of the appends since the last checkpoint that was taken, the commands of the first
  -- transactions of each group, and of all its transactions if the append succeeded. The commands carry
  -- numbers of 64 bits and checksums have 32 bits.
  pub recover-Survives :
      (uses : List Use)
      → All AllowsUse uses
      → (s : Session) × ((start crc32 max_segment_size owner >>= λ t. run crc32 t uses) ≡ ok s)
        × ((cs : List LogCommand) × (recover crc32 s ≡ ok cs) × Survives s.history cs)
  recover-Survives uses has =
      let (s, ran, durable) = run-started uses has in (s, ran, recover-durable s durable)

  -- If an append of a session that began with an empty directory succeeded, and no checkpoint was taken
  -- after it, a recovery after the session succeeds, and gives all commands of the group next to each
  -- other, in their order. The commands carry numbers of 64 bits and checksums have 32 bits.
  pub recover-acknowledged :
      (uses : List Use) (s : Session) (newer older : History) (groups : List (List LogCommand))
      → All AllowsUse uses
      → (start crc32 max_segment_size owner >>= λ t. run crc32 t uses) ≡ ok s
      → s.history ≡ newer ++ (groups, Bool.true) ∷ older
      → (before : List LogCommand) × ((after : List LogCommand) × (recover crc32 s
            ≡ ok (before ++ (concat groups ++ after))))
  recover-acknowledged uses s newer older groups has ran e =
      let (t, same, durable) = run-started uses has in
      let (cs, recovered, kept) = recover-durable t durable in
      let one : t ≡ s = cere_db.Error.eq_of_ok t s (sym same ∙ ran) in
      let (before, (after, f)) = left-acknowledged newer older groups cs (rw (one, e) at kept) in
      (before, (after, rw one at recovered ∙ ap (λ xs. ok xs) f))
