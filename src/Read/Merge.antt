-- ===== src/Read/Merge.antt =====
-- The scan's rules for versions and ranges, beside the compaction's.
use cere_db.Base.{
  ℕ, ◌≡◌, refl, sym, ◌∙◌, inl, inr, ltb, ◌&&◌, not, true, false, Bool-cases, Option-cases, List, [],
  ◌∷◌, ◌++◌, arith, if◌then◌else◌,
}
use cere_db.Bytes.{Bytes}
use cere_db.Key.{key_lt}
use cere_db.Key.Order.{key_lt_asymm, key_le_trans}
use cere_db.Ord.{bytes_ord}
use cere_db.TreeMap
use cere_db.TreeMap.Laws.{IsSorted, insert-same}
use cere_db.Record.{RecordType-cases}
use cere_db.Memtable.{MemtableRecord}
use cere_db.Compaction.{Merged, choose_winner, offer, merge_records}
use cere_db.Compaction.Winners.{offer-IsSorted}
use cere_db.Read.{is_newer_record, is_delete}
use cere_db.Read.Scan.{
  Bound, included, excluded, unbounded, ScanRange, key_in_range, is_below, is_above, ranges_overlap,
  starts_after, ends_before, offer_newer, scan_records,
}

-- Compaction keeps the candidate exactly if a scan takes it for newer.
pub choose_winner-is_newer_record :
    (current candidate : MemtableRecord)
    → choose_winner current candidate
      ≡ (if is_newer_record candidate current then candidate else current)
unfolding choose_winner is_newer_record is_delete
choose_winner-is_newer_record current candidate = elim (RecordType-cases current.record_type) [
  | inl e ↦ elim (RecordType-cases candidate.record_type) [
    | inl k ↦ ground (arith, e, k)
    | inr k ↦ ground (arith, e, k)
  ]
  | inr e ↦ elim (RecordType-cases candidate.record_type) [
    | inl k ↦ ground (arith, e, k)
    | inr k ↦ ground (arith, e, k)
  ]
]

ends_before-is_below :
    (key sst_end : Bytes) (b : Bound Bytes)
    → key_lt sst_end key ≡ false
    → is_below key b ≡ false
    → ends_before sst_end b ≡ false
unfolding is_below ends_before
ends_before-is_below key sst_end (included s) k h = key_le_trans s key sst_end h k
ends_before-is_below key sst_end (excluded s) k h =
    let less : key_lt s key ≡ true = ground (arith, h) in
    key_le_trans s key sst_end (key_lt_asymm s key less) k
ends_before-is_below key sst_end unbounded k h = refl

starts_after-is_above :
    (key sst_start : Bytes) (b : Bound Bytes)
    → key_lt key sst_start ≡ false
    → is_above key b ≡ false
    → starts_after sst_start b ≡ false
unfolding is_above starts_after
starts_after-is_above key sst_start (included l) k h = key_le_trans sst_start key l k h
starts_after-is_above key sst_start (excluded l) k h =
    let less : key_lt key l ≡ true = ground (arith, h) in
    key_le_trans sst_start key l k (key_lt_asymm key l less)
starts_after-is_above key sst_start unbounded k h = refl

-- A file or a block whose keys lie between two keys is not skipped if one of its keys is in range.
pub ranges_overlap-key_in_range :
    (range : ScanRange) (key sst_start sst_end : Bytes)
    → key_lt key sst_start ≡ false
    → key_lt sst_end key ≡ false
    → key_in_range key range ≡ true
    → ranges_overlap range sst_start sst_end ≡ true
unfolding ranges_overlap key_in_range
ranges_overlap-key_in_range range key sst_start sst_end h k r =
    let low : is_below key range.start ≡ false = ground (arith, r) in
    let high : is_above key range.last ≡ false = ground (arith, r) in
    rw
      (
        ends_before-is_below key sst_end range.start k low,
        starts_after-is_above key sst_start range.last h high,
      )
      refl

-- The versions that a scan looks at: those in range that are not newer than its snapshot.
abbrev pub eligible : ScanRange → ℕ → List MemtableRecord → List MemtableRecord
eligible range sequence_number [] = []
eligible range sequence_number (r ∷ rs) =
    let rest = eligible range sequence_number rs in
    if not (ltb sequence_number r.lsn) && key_in_range r.key range then r ∷ rest else rest

pub eligible-append :
    (range : ScanRange) (n : ℕ) (rs ss : List MemtableRecord)
    → eligible range n (rs ++ ss) ≡ eligible range n rs ++ eligible range n ss
eligible-append range n [] ss = refl
eligible-append range n (r ∷ rs) ss =
    elim (Bool-cases (not (ltb n r.lsn) && key_in_range r.key range)) [
      | inl e ↦ rw (e, eligible-append range n rs ss)
      | inr e ↦ rw (e, eligible-append range n rs ss)
    ]

winner-newer : (w r : MemtableRecord) → is_newer_record r w ≡ true → choose_winner w r ≡ r
winner-newer w r h = choose_winner-is_newer_record w r ∙ rw h refl

winner-older : (w r : MemtableRecord) → is_newer_record r w ≡ false → choose_winner w r ≡ w
winner-older w r h = choose_winner-is_newer_record w r ∙ rw h refl

offer_newer-offer :
    (m : Merged) (r : MemtableRecord) → IsSorted m → offer_newer r.key m r ≡ offer m r
unfolding offer_newer offer
offer_newer-offer m r s = elim (Option-cases (TreeMap.get r.key m)) [
  | inl e ↦ rw (e, offer_newer, offer) refl
  | inr (w, e) ↦ elim (Bool-cases (is_newer_record r w)) [
    | inl h ↦
        let win : choose_winner w r ≡ r = winner-newer w r h in
        rw (e, offer_newer, offer, h, win) refl
    | inr h ↦
        let win : choose_winner w r ≡ w = winner-older w r h in
        rw (e, offer_newer, offer, h, win) (sym (insert-same r.key w m s e))
  ]
]

-- Scanning records is merging the eligible ones, as a compaction merges.
pub scan_records-merge_records :
    (range : ScanRange) (n : ℕ) (m : Merged) (rs : List MemtableRecord)
    → IsSorted m
    → scan_records range n m rs ≡ merge_records m (eligible range n rs)
unfolding scan_records merge_records
scan_records-merge_records range n m [] s = refl
scan_records-merge_records range n m (r ∷ rs) s =
    elim (Bool-cases (not (ltb n r.lsn) && key_in_range r.key range)) [
      | inl e ↦
          rw (e, scan_records, offer_newer-offer m r s)
            (scan_records-merge_records range n (offer m r) rs (offer-IsSorted m r s))
      | inr e ↦ rw (e, scan_records) (scan_records-merge_records range n m rs s)
    ]
