-- ===== src/Compaction/Winners.antt =====
-- The versions that the merge keeps.
use cere_db.Base.{
  ℕ, suc, ◌≤◌, ◌≡◌, ◌≢◌, refl, sym, ◌∙◌, ◌⊎◌, inl, inr, Bool, true, false, Option, none, some,
  Option-cases, Bool-cases, List, [], ◌∷◌, ◌++◌, arith, append_assoc, append-nil, All, All-append,
  All-map, Has, Has-append_left, Has-append_last, if◌then◌else◌, ltb,
}
use cere_db.Error.{ok}
use cere_db.Bytes.{Bytes}
use cere_db.Key
use cere_db.Key.Order.{cmp_refl, eq_of_cmp}
use cere_db.Ord.{bytes_ord}
use cere_db.TreeMap
use cere_db.TreeMap.{is_eq}
use cere_db.TreeMap.Laws.{get-insert, IsSorted, insert-IsSorted}
use cere_db.Record.{RecordType-cases, delete}
use cere_db.Memtable.{MemtableRecord}
use cere_db.Bloom.{FastBloom}
use cere_db.Block.{Block}
use cere_db.SsTable.{SsTableCodec}
use cere_db.Compaction.{
  choose_by_type, choose_winner, Merged, offer, merge_records, records_of, merge_blocks,
  merge_tables,
}

-- `r` does not win over `w`.
abbrev pub NotNewer : MemtableRecord → MemtableRecord → Type 0
NotNewer r w = (r.lsn ≤ w.lsn) × (r.lsn ≡ w.lsn → r.record_type ≡ delete → w.record_type ≡ delete)

-- What a lookup of `k` has to say of the versions `rs`.
abbrev pub Newest : Bytes → List MemtableRecord → Option MemtableRecord → Type 0
Newest k rs none = All (λ r. r.key ≢ k) rs
Newest k rs (some w) = Has w rs × (w.key ≡ k) × All (λ r. r.key ≡ k → NotNewer r w) rs

NotNewer-refl : (r : MemtableRecord) → NotNewer r r
NotNewer-refl r = (omega arith, λ e h. h)

NotNewer-trans : (a b c : MemtableRecord) → NotNewer a b → NotNewer b c → NotNewer a c
NotNewer-trans a b c h k =
    (omega arith, λ e d. k.1 (omega (arith, h.0, k.0)) (h.1 (omega (arith, h.0, k.0)) d))

-- The winner is one of the two, and the other does not win over it.
choose_winner-cases :
    (e r : MemtableRecord)
    → ((choose_winner e r ≡ e) × NotNewer r e) ⊎ ((choose_winner e r ≡ r) × NotNewer e r)
unfolding choose_winner choose_by_type
choose_winner-cases e r = elim (Bool-cases (ltb e.lsn r.lsn)) [
  | inl p ↦ inr (rw p, (ground arith, λ s d. absurd (ground arith)))
  | inr p ↦ elim (Bool-cases (ltb r.lsn e.lsn)) [
    | inl q ↦ inl (rw (p, q), (ground arith, λ s d. absurd (ground arith)))
    | inr q ↦ elim (RecordType-cases e.record_type) [
      | inr t ↦ inl (rw (p, q, t), (ground arith, λ _ _. t))
      | inl t ↦ elim (RecordType-cases r.record_type) [
        | inl u ↦ inl (rw (p, q, t, u), (ground arith, λ _ d. cc))
        | inr u ↦ inr (rw (p, q, t, u), (ground arith, λ _ d. u))
      ]
    ]
  ]
]

Newest-append :
    (k : Bytes) (rs : List MemtableRecord) (r : MemtableRecord) (o : Option MemtableRecord)
    → r.key ≡ k
    → Newest k rs o
    → Newest k (rs ++ r ∷ []) (some (elim o [ none ↦ r | some e ↦ choose_winner e r ]))
Newest-append k rs r none e h = (
  Has-append_last r rs,
  e,
  All-append _ rs (r ∷ []) (All-map (λ x p q. absurd (p q)) rs h) ((λ _. NotNewer-refl r), tt),
)
Newest-append k rs r (some w) e h = elim (choose_winner-cases w r) [
  | inl (c, n) ↦
      rw c (Has-append_left w rs (r ∷ []) h.0, h.1, All-append _ rs (r ∷ []) h.2 ((λ _. n), tt))
  | inr (c, n) ↦ rw c (
    Has-append_last r rs,
    e,
    All-append _ rs (r ∷ []) (All-map (λ x p q. NotNewer-trans x w r (p q) n) rs h.2)
        ((λ _. NotNewer-refl r), tt),
  )
]

Newest-append_ne :
    (k : Bytes) (rs : List MemtableRecord) (r : MemtableRecord) (o : Option MemtableRecord)
    → r.key ≢ k
    → Newest k rs o
    → Newest k (rs ++ r ∷ []) o
Newest-append_ne k rs r none e h = All-append _ rs (r ∷ []) h (e, tt)
Newest-append_ne k rs r (some w) e h =
    (Has-append_left w rs (r ∷ []) h.0, h.1, All-append _ rs (r ∷ []) h.2 ((λ q. absurd (e q)), tt))

get-offer :
    (k : Bytes) (m : Merged) (r : MemtableRecord)
    → TreeMap.get k (offer m r) ≡ (
        if is_eq (Key.cmp k r.key)
        then some (elim (TreeMap.get r.key m) [ none ↦ r | some e ↦ choose_winner e r ])
        else TreeMap.get k m)
unfolding offer
get-offer k m r = elim (Option-cases (TreeMap.get r.key m)) [
  | inl e ↦ ground (arith, e, get-insert r.key k r m)
  | inr (w, e) ↦ ground (arith, e, get-insert r.key k (choose_winner w r) m)
]

eq_of_is_eq : (a b : Bytes) → is_eq (Key.cmp a b) ≡ true → a ≡ b
eq_of_is_eq a b h = ground (arith, eq_of_cmp a b)

ne_of_is_eq : (a b : Bytes) → is_eq (Key.cmp a b) ≡ false → a ≢ b
ne_of_is_eq a b h e = ground (arith, cmp_refl a)

offer-Newest :
    (m : Merged) (rs : List MemtableRecord) (r : MemtableRecord)
    → ((k : Bytes) → Newest k rs (TreeMap.get k m))
    → (k : Bytes) → Newest k (rs ++ r ∷ []) (TreeMap.get k (offer m r))
offer-Newest m rs r h k = rw (get-offer k m r) (elim (Bool-cases (is_eq (Key.cmp k r.key))) [
  | inl e ↦
      rw e
        (rw (eq_of_is_eq k r.key e) (Newest-append r.key rs r (TreeMap.get r.key m) refl (h r.key)))
  | inr e ↦ rw e (Newest-append_ne k rs r _ (λ q. ne_of_is_eq k r.key e (sym q)) (h k))
])

pub offer-IsSorted : (m : Merged) (r : MemtableRecord) → IsSorted m → IsSorted (offer m r)
unfolding offer
offer-IsSorted m r s = elim (Option-cases (TreeMap.get r.key m)) [
  | inl e ↦ rw (e, offer) (insert-IsSorted r.key r m s)
  | inr (w, e) ↦ rw (e, offer) (insert-IsSorted r.key (choose_winner w r) m s)
]

-- Over a whole list, from what has been merged before.
pub merge_records-Newest :
    (m : Merged) (done rs : List MemtableRecord)
    → ((k : Bytes) → Newest k done (TreeMap.get k m))
    → (k : Bytes) → Newest k (done ++ rs) (TreeMap.get k (merge_records m rs))
unfolding merge_records
merge_records-Newest m done [] h k = rw append-nil (h k)
merge_records-Newest m done (r ∷ rs) h k =
    rw (append_assoc done (r ∷ []) rs) at
      (merge_records-Newest (offer m r) (done ++ r ∷ []) rs (offer-Newest m done r h) k)

pub merge_records-IsSorted :
    (m : Merged) (rs : List MemtableRecord) → IsSorted m → IsSorted (merge_records m rs)
unfolding merge_records
merge_records-IsSorted m [] s = s
merge_records-IsSorted m (r ∷ rs) s = merge_records-IsSorted (offer m r) rs (offer-IsSorted m r s)

pub merge_records-append :
    (m : Merged) (rs ss : List MemtableRecord)
    → merge_records m (rs ++ ss) ≡ merge_records (merge_records m rs) ss
unfolding merge_records
merge_records-append m [] ss = refl
merge_records-append m (r ∷ rs) ss = merge_records-append (offer m r) rs ss

-- The records of blocks and of tables, in the order in which the merge meets them.
unfoldable pub block_records : List Block → List MemtableRecord
block_records [] = []
block_records (b ∷ bs) = records_of b ++ block_records bs

unfoldable pub table_records : {fast : FastBloom} → List (SsTableCodec fast) → List MemtableRecord
table_records [] = []
table_records (s ∷ ss) = block_records s.blocks ++ table_records ss

merge_blocks-eq :
    (m : Merged) (bs : List Block) → merge_blocks m bs ≡ merge_records m (block_records bs)
unfolding merge_blocks block_records
merge_blocks-eq m [] = unfold merge_records in refl
merge_blocks-eq m (b ∷ bs) =
    merge_blocks-eq (merge_records m (records_of b)) bs
    ∙ sym (merge_records-append m (records_of b) (block_records bs))

module _ {fast : FastBloom} (cancel : ℕ → Bool) (never : (t : ℕ) → cancel t ≡ false) where
  merge_tables-eq :
      (t : ℕ) (m : Merged) (ss : List (SsTableCodec fast))
      → merge_tables cancel t m ss ≡ ok (merge_records m (table_records ss))
  unfolding merge_tables table_records
  merge_tables-eq t m [] = unfold merge_records in refl
  merge_tables-eq t m (s ∷ ss) = rw (
    never t,
    merge_tables-eq (suc t) (merge_blocks m s.blocks) ss,
    merge_blocks-eq m s.blocks,
    merge_records-append m (block_records s.blocks) (table_records ss),
  )

  -- Without a cancellation the merge of the tables succeeds, its keys are in strict order, and for
  -- every key it has no entry if no input record has the key, and otherwise one of the input
  -- records of that key that no other wins over: none has a greater sequence number, and if a
  -- tombstone has the same one, the entry is a tombstone.
  pub merge_tables-Newest :
      (ss : List (SsTableCodec fast))
      → (m : Merged) × (merge_tables cancel 0 [] ss ≡ ok m)
        × IsSorted m
        × ((k : Bytes) → Newest k (table_records ss) (TreeMap.get k m))
  merge_tables-Newest ss = (
    merge_records [] (table_records ss),
    merge_tables-eq 0 [] ss,
    merge_records-IsSorted [] (table_records ss) tt,
    merge_records-Newest [] [] (table_records ss) (λ k. unfold TreeMap.get in tt),
  )
