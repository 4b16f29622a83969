-- ===== src/Read/Best.antt =====
-- The newest version of a key among some files, as the search of the levels looks for it.
use cere_db.Base.{
  ◌≤◌, ◌≡◌, ◌≢◌, ◌⊎◌, inl, inr, ltb, Bool-cases, Option, none, some, List, [], ◌∷◌, ◌++◌, arith,
  Has, Has-append_left, Has-append_last,
}
use cere_db.Memtable.{MemtableRecord}
use cere_db.Manifest.{SsTableMeta}
use cere_db.Manifest.Snapshot.{SnapshotLevels}
use cere_db.Read.{newer_of, reversed}

-- All files, level by level.
abbrev pub all_files : SnapshotLevels → List SsTableMeta
all_files [] = []
all_files ((level, files) ∷ ls) = files ++ all_files ls

pub Has-append_right : (s : SsTableMeta) (ss ts : List SsTableMeta) → Has s ts → Has s (ss ++ ts)
Has-append_right s [] ts h = h
Has-append_right s (t ∷ ss) ts h = inr (Has-append_right s ss ts h)

pub Has-append-cases :
    (s : SsTableMeta) (ss ts : List SsTableMeta) → Has s (ss ++ ts) → Has s ss ⊎ Has s ts
Has-append-cases s [] ts h = inr h
Has-append-cases s (t ∷ ss) ts (inl e) = inl (inl e)
Has-append-cases s (t ∷ ss) ts (inr h) = elim (Has-append-cases s ss ts h) [
  | inl k ↦ inl (inr k)
  | inr k ↦ inr k
]

Has-one : (s t : SsTableMeta) → Has s (t ∷ []) → s ≡ t
Has-one s t (inl e) = e
Has-one s t (inr h) = absurd h

pub Has-reversed : (s : SsTableMeta) (ss : List SsTableMeta) → Has s ss → Has s (reversed ss)
unfolding reversed
Has-reversed s [] h = h
Has-reversed s (t ∷ ss) (inl e) = rw e (Has-append_last t (reversed ss))
Has-reversed s (t ∷ ss) (inr h) = Has-append_left s (reversed ss) (t ∷ []) (Has-reversed s ss h)

pub Has-unreversed : (s : SsTableMeta) (ss : List SsTableMeta) → Has s (reversed ss) → Has s ss
unfolding reversed
Has-unreversed s [] h = h
Has-unreversed s (t ∷ ss) h = elim (Has-append-cases s (reversed ss) (t ∷ []) h) [
  | inl k ↦ inr (Has-unreversed s ss k)
  | inr k ↦ inl (Has-one s t k)
]

module _ (found : SsTableMeta → Option MemtableRecord) where
  -- The newest version in the files, if there is any.
  abbrev pub Best : Option MemtableRecord → List SsTableMeta → Type 0
  Best none ss = (s : SsTableMeta) → Has s ss → found s ≡ none
  Best (some w) ss =
      ((s : SsTableMeta) × Has s ss × (found s ≡ some w))
      × ((s : SsTableMeta) (r : MemtableRecord) → Has s ss → found s ≡ some r → r.lsn ≤ w.lsn)

  -- All versions in the files are one.
  abbrev pub IsSingle : List SsTableMeta → Type 0
  IsSingle ss =
      (s t : SsTableMeta) (r w : MemtableRecord)
      → Has s ss
      → Has t ss
      → found s ≡ some r
      → found t ≡ some w
      → r.lsn ≤ w.lsn

  -- No version in a later level is newer, and below level 0 a level has one version at most.
  abbrev pub IsLayered : SnapshotLevels → Type 0
  IsLayered [] = Unit {0}
  IsLayered ((level, files) ∷ ls) =
      (level ≢ 0 → IsSingle files)
      × ((s t : SsTableMeta) (r w : MemtableRecord)
          → Has s files
          → Has t (all_files ls)
          → found s ≡ some r
          → found t ≡ some w
          → w.lsn ≤ r.lsn)
      × IsLayered ls

module _ (found : SsTableMeta → Option MemtableRecord) where
  pub some_ne : (s : SsTableMeta) (r : MemtableRecord) → found s ≡ none → found s ≡ some r → ⊥
  some_ne s r e h = ground (arith, e, h)

  same_found :
      (s : SsTableMeta) (r w : MemtableRecord) → found s ≡ some r → found s ≡ some w → r.lsn ≤ w.lsn
  same_found s r w e h = let same : r ≡ w = ground (arith, e, h) in rw same (omega arith)

  pub Best-snoc :
      (best o : Option MemtableRecord) (done : List SsTableMeta) (s : SsTableMeta)
      → found s ≡ o
      → Best found best done
      → Best found (newer_of best o) (done ++ s ∷ [])
  unfolding newer_of
  Best-snoc none none done s e b = λ x h. elim (Has-append-cases x done (s ∷ []) h) [
    | inl k ↦ b x k
    | inr k ↦ rw (Has-one x s k) e
  ]
  Best-snoc none (some r) done s e b = (
    (s, Has-append_last s done, e),
    λ x w h q. elim (Has-append-cases x done (s ∷ []) h) [
      | inl k ↦ absurd (some_ne x w (b x k) q)
      | inr k ↦ same_found s w r (rw (Has-one x s k) at q) e
    ],
  )
  Best-snoc (some c) none done s e b = (
    (b.0.0, Has-append_left b.0.0 done (s ∷ []) b.0.1, b.0.2),
    λ x w h q. elim (Has-append-cases x done (s ∷ []) h) [
      | inl k ↦ b.1 x w k q
      | inr k ↦ absurd (some_ne s w e (rw (Has-one x s k) at q))
    ],
  )
  Best-snoc (some c) (some r) done s e b = elim (Bool-cases (ltb c.lsn r.lsn)) [
    | inl l ↦
        rw (l, newer_of)
          (
            (s, Has-append_last s done, e),
            λ x w h q. elim (Has-append-cases x done (s ∷ []) h) [
              | inl k ↦ let bound : w.lsn ≤ c.lsn = b.1 x w k q in ground (arith, l, bound)
              | inr k ↦ same_found s w r (rw (Has-one x s k) at q) e
            ],
          )
    | inr l ↦
        rw (l, newer_of)
          (
            (b.0.0, Has-append_left b.0.0 done (s ∷ []) b.0.1, b.0.2),
            λ x w h q. elim (Has-append-cases x done (s ∷ []) h) [
              | inl k ↦ b.1 x w k q
              | inr k ↦
                  let bound : w.lsn ≤ r.lsn = same_found s w r (rw (Has-one x s k) at q) e in
                  ground (arith, l, bound)
            ],
          )
  ]
