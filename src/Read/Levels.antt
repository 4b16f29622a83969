-- ===== src/Read/Levels.antt =====
-- The search of the levels, beside the newest version of the key.
use cere_db.Base.{
  ℕ, ◌≤◌, ◌≡◌, ◌≢◌, append-nil, append_assoc, refl, ap, ◌∙◌, inl, inr, ◌==◌, Bool-cases, Option,
  none, some, Option-cases, List, [], ◌∷◌, ◌++◌, arith, Has, Has-append_left,
}
use cere_db.Error.{Result, ok, ◌>>=◌}
use cere_db.Memtable.{MemtableRecord}
use cere_db.Manifest.{SsTableMeta}
use cere_db.Manifest.Snapshot.{SnapshotLevels}
use cere_db.Read.{
  newer_of, reversed, visible, visible_of, search_all, search_first, search_level, search_levels,
}
use cere_db.Read.Best.{
  all_files, Has-append_right, Has-append-cases, Has-reversed, Has-unreversed, Best, IsSingle,
  IsLayered, some_ne, Best-snoc,
}

module _ (get_one : SsTableMeta → Result (Option MemtableRecord))
    (found : SsTableMeta → Option MemtableRecord) where
  search_all-Best :
      (best : Option MemtableRecord) (done ss : List SsTableMeta)
      → ((s : SsTableMeta) → Has s ss → get_one s ≡ ok (found s))
      → Best found best done
      → (o : Option MemtableRecord) × (search_all get_one best ss ≡ ok o)
        × Best found o (done ++ ss)
  unfolding search_all
  search_all-Best best done [] reads b = (best, refl, rw append-nil b)
  search_all-Best best done (s ∷ ss) reads b =
      let (o, e, c) =
        search_all-Best (newer_of best (found s)) (done ++ s ∷ []) ss (λ t h. reads t (inr h))
          (Best-snoc found best (found s) done s refl b) in
      (o, rw (reads s (inl refl)) e, rw (append_assoc done (s ∷ []) ss) at c)

  search_first-Best :
      (ss : List SsTableMeta)
      → ((s : SsTableMeta) → Has s ss → get_one s ≡ ok (found s))
      → IsSingle found ss
      → (o : Option MemtableRecord) × (search_first get_one ss ≡ ok o) × Best found o ss
  unfolding search_first
  search_first-Best [] reads single = (none, refl, λ s h. absurd h)
  search_first-Best (s ∷ ss) reads single = elim (Option-cases (found s)) [
    | inr (r, e) ↦ (
      some r,
      rw (reads s (inl refl), e) refl,
      ((s, inl refl, e), λ t w h q. single t s w r h (inl refl) q e),
    )
    | inl e ↦
        let (o, k, c) =
          search_first-Best ss (λ t h. reads t (inr h))
            (λ t u r w h i. single t u r w (inr h) (inr i)) in
        (o, rw (reads s (inl refl), e) k, Best-cons s ss o e c)
  ]
    where
      Best-cons :
          (s : SsTableMeta) (ss : List SsTableMeta) (o : Option MemtableRecord)
          → found s ≡ none
          → Best found o ss
          → Best found o (s ∷ ss)
      Best-cons s ss none e c = λ t h. elim h [ inl q ↦ rw q e | inr k ↦ c t k ]
      Best-cons s ss (some w) e c = (
        (c.0.0, inr c.0.1, c.0.2),
        λ t r h q. elim h [
          | inl k ↦ absurd (some_ne found s r e (rw k at q))
          | inr k ↦ c.1 t r k q
        ],
      )

  Best-reversed :
      (o : Option MemtableRecord) (ss : List SsTableMeta)
      → Best found o (reversed ss)
      → Best found o ss
  Best-reversed none ss b = λ s h. b s (Has-reversed s ss h)
  Best-reversed (some w) ss b =
      ((b.0.0, Has-unreversed b.0.0 ss b.0.1, b.0.2), λ s r h q. b.1 s r (Has-reversed s ss h) q)

  search_level-Best :
      (level : ℕ) (files : List SsTableMeta)
      → ((s : SsTableMeta) → Has s files → get_one s ≡ ok (found s))
      → (level ≢ 0 → IsSingle found files)
      → (o : Option MemtableRecord) × (search_level get_one level files ≡ ok o) × Best found o files
  unfolding search_level
  search_level-Best level files reads single = elim (Bool-cases (level == 0)) [
    | inl e ↦
        let (o, k, c) = search_all-Best none [] files reads (λ s h. absurd h) in
        (o, rw (e, search_level) k, c)
    | inr e ↦
        let alone : IsSingle found files = single (ground (arith, e)) in
        let (o, k, c) =
          search_first-Best (reversed files) (λ s h. reads s (Has-unreversed s files h))
            (λ s t r w h i. alone s t r w (Has-unreversed s files h) (Has-unreversed t files i)) in
        (o, rw (e, search_level) k, Best-reversed o files c)
  ]

  Best-over :
      (w : MemtableRecord) (files rest : List SsTableMeta)
      → Best found (some w) files
      → ((s t : SsTableMeta) (r v : MemtableRecord)
          → Has s files
          → Has t rest
          → found s ≡ some r
          → found t ≡ some v
          → v.lsn ≤ r.lsn)
      → Best found (some w) (files ++ rest)
  Best-over w files rest b over = (
    (b.0.0, Has-append_left b.0.0 files rest b.0.1, b.0.2),
    λ s r h q. elim (Has-append-cases s files rest h) [
      | inl k ↦ b.1 s r k q
      | inr k ↦ over b.0.0 s w r b.0.1 k b.0.2 q
    ],
  )

  Best-under :
      (o : Option MemtableRecord) (files rest : List SsTableMeta)
      → Best found none files
      → Best found o rest
      → Best found o (files ++ rest)
  Best-under none files rest b c =
      λ s h. elim (Has-append-cases s files rest h) [ inl k ↦ b s k | inr k ↦ c s k ]
  Best-under (some w) files rest b c = (
    (c.0.0, Has-append_right c.0.0 files rest c.0.1, c.0.2),
    λ s r h q. elim (Has-append-cases s files rest h) [
      | inl k ↦ absurd (some_ne found s r (b s k) q)
      | inr k ↦ c.1 s r k q
    ],
  )

  search_levels-cons :
      (level : ℕ) (files : List SsTableMeta) (ls : SnapshotLevels) (o o' : Option MemtableRecord)
      → search_level get_one level files ≡ ok o
      → search_levels get_one ls ≡ ok (visible_of o')
      → Best found o files
      → Best found o' (all_files ls)
      → ((s t : SsTableMeta) (r v : MemtableRecord)
          → Has s files
          → Has t (all_files ls)
          → found s ≡ some r
          → found t ≡ some v
          → v.lsn ≤ r.lsn)
      → (x : Option MemtableRecord) × (search_levels get_one ((level, files) ∷ ls)
          ≡ ok (visible_of x))
        × Best found x (files ++ all_files ls)
  unfolding search_levels
  search_levels-cons level files ls none o' e e' b b' over =
      (o', step ∙ e', Best-under o' files (all_files ls) b b')
    where
      step : search_levels get_one ((level, files) ∷ ls) ≡ search_levels get_one ls
      step =
          ap
            (λ r. r >>= λ found'. elim found' [
              | some r ↦ ok (visible r)
              | none ↦ search_levels get_one ls
            ])
            e
  search_levels-cons level files ls (some w) o' e e' b b' over = (
    some w,
    ap
        (λ r.
          r >>= λ found'. elim found' [ some r ↦ ok (visible r) | none ↦ search_levels get_one ls ])
        e,
    Best-over w files (all_files ls) b over,
  )

  -- If every file can be searched, no level has a newer version of the key than the levels before it,
  -- and a level below level 0 has one version at most, then the search of the levels answers with
  -- the newest version of all files, or with nothing if that is a tombstone or no file has the key.
  pub search_levels-Best :
      (ls : SnapshotLevels)
      → ((s : SsTableMeta) → Has s (all_files ls) → get_one s ≡ ok (found s))
      → IsLayered found ls
      → (o : Option MemtableRecord) × (search_levels get_one ls ≡ ok (visible_of o))
        × Best found o (all_files ls)
  unfolding search_levels
  search_levels-Best [] reads h = (none, refl, λ s h. absurd h)
  search_levels-Best ((level, files) ∷ ls) reads h =
      let (o, e, b) =
        search_level-Best level files (λ s k. reads s (Has-append_left s files (all_files ls) k))
          h.0 in
      let (o', e', b') =
        search_levels-Best ls (λ s k. reads s (Has-append_right s files (all_files ls) k)) h.2 in
      search_levels-cons level files ls o o' e e' b b' h.1
