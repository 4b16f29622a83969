-- ===== src/Read/Get.antt =====
-- storage/readmanager/read.rs, `get`: the memtable's version decides, then the tables.
use cere_db.Base.{
  ℕ, ◌≤◌, ◌<◌, ◌≡◌, refl, sym, ap, ◌∙◌, ◌⊎◌, inl, inr, leb, ◌&&◌, true, false, Bool-cases, Option,
  none, some, Option-cases, [], ◌∷◌, arith, All, All-Has, Has,
}
use cere_db.Error.{Result, ok, ◌>>=◌}
use cere_db.Bytes.{Bytes}
use cere_db.Key.{key_lt, key_eq}
use cere_db.Key.Order.{key_eq_iff, key_lt_irrefl}
use cere_db.Memtable.{MemtableRecord}
use cere_db.Bloom.{FastBloom}
use cere_db.Manifest.{SsTableMeta}
use cere_db.Manifest.Snapshot.{SnapshotLevels}
use cere_db.Read.{MemtableMap, latest_visible, visible_of, get_from_single_sstable, get}
use cere_db.Read.Best.{Best, IsLayered, all_files}
use cere_db.Read.Levels.{search_levels-Best}

-- The order of the memtable's entries: by key, then by sequence number.
abbrev pub IsBefore : (Bytes × ℕ) × MemtableRecord → (Bytes × ℕ) × MemtableRecord → Type 0
IsBefore e f = (key_lt e.0.0 f.0.0 ≡ true) ⊎ ((e.0.0 ≡ f.0.0) × (e.0.1 < f.0.1))

abbrev pub IsOrdered : MemtableMap → Type 0
IsOrdered [] = Unit {0}
IsOrdered (e ∷ m) = All (IsBefore e) m × IsOrdered m

module _ (key : Bytes) (sequence_number : ℕ) where
  -- An entry that a read of the key at the sequence number may see.
  abbrev pub IsVisible : (Bytes × ℕ) × MemtableRecord → Type 0
  IsVisible e = (e.0.0 ≡ key) × (e.0.1 ≤ sequence_number)

  -- The visible entry with the greatest sequence number, if there is one.
  abbrev pub Latest : MemtableMap → Option MemtableRecord → Type 0
  Latest m none = (e : (Bytes × ℕ) × MemtableRecord) → Has e m → ¬ IsVisible e
  Latest m (some r) =
      (lsn : ℕ) × Has ((key, lsn), r) m
      × (lsn ≤ sequence_number)
      × ((e : (Bytes × ℕ) × MemtableRecord) → Has e m → IsVisible e → e.0.1 ≤ lsn)

  before-lt :
      (e f : (Bytes × ℕ) × MemtableRecord)
      → IsBefore e f
      → e.0.0 ≡ key
      → f.0.0 ≡ key
      → e.0.1 < f.0.1
  before-lt e f (inl h) p q =
      let same : key_lt key key ≡ true = rw (p, q) at h in
      absurd (ground (arith, same, key_lt_irrefl key))
  before-lt e f (inr h) p q = h.1

  latest_visible-cons :
      (k : Bytes) (l : ℕ) (r : MemtableRecord) (m : MemtableMap) (o : Option MemtableRecord)
      → latest_visible key sequence_number m ≡ o
      → Latest m o
      → IsOrdered (((k, l), r) ∷ m)
      → Latest (((k, l), r) ∷ m) (latest_visible key sequence_number (((k, l), r) ∷ m))
  unfolding latest_visible
  latest_visible-cons k l r m (some later) q (lsn, there, le, most) (before, rest) =
      rw (q, latest_visible) (lsn, inr there, le, bound)
    where
      bound :
          (e : (Bytes × ℕ) × MemtableRecord) → Has e (((k, l), r) ∷ m) → IsVisible e → e.0.1 ≤ lsn
      bound e (inl s) v =
          let first : k ≡ key = sym (ap (λ x. x.0.0) s) ∙ v.0 in
          let lt =
            before-lt ((k, l), r) ((key, lsn), later)
              (All-Has (IsBefore ((k, l), r)) m ((key, lsn), later) before there) first refl in
          let same = ap (λ x. x.0.1) s in omega (arith, lt, same)
      bound e (inr h) v = most e h v
  latest_visible-cons k l r m none q least (before, rest) =
      elim (Bool-cases (key_eq k key && leb l sequence_number)) [
        | inl t ↦
            let first : k ≡ key = (key_eq_iff k key).0 (ground (arith, t)) in
            rw (q, latest_visible, t) (l, inl (rw first refl), ground (arith, t), bound)
        | inr f ↦ rw (q, latest_visible, f) (hidden f)
      ]
    where
      bound : (e : (Bytes × ℕ) × MemtableRecord) → Has e (((k, l), r) ∷ m) → IsVisible e → e.0.1 ≤ l
      bound e (inl s) v = let same = ap (λ x. x.0.1) s in omega (arith, same)
      bound e (inr h) v = absurd (least e h v)

      hidden :
          (key_eq k key && leb l sequence_number) ≡ false
          → (e : (Bytes × ℕ) × MemtableRecord) → Has e (((k, l), r) ∷ m)
          → ¬ IsVisible e
      hidden f e (inl s) v =
          let first : key_eq k key ≡ true = (key_eq_iff k key).1 (sym (ap (λ x. x.0.0) s) ∙ v.0) in
          let same : e.0.1 ≡ l = ap (λ x. x.0.1) s in
          let le : l ≤ sequence_number = omega (arith, same, v.1) in ground (arith, f, first, le)
      hidden f e (inr h) v = least e h v

  latest_visible-Latest :
      (m : MemtableMap) → IsOrdered m → Latest m (latest_visible key sequence_number m)
  unfolding latest_visible
  latest_visible-Latest [] h = λ e k v. k
  latest_visible-Latest (((k, l), r) ∷ m) h =
      latest_visible-cons k l r m (latest_visible key sequence_number m) refl
        (latest_visible-Latest m h.1) h

  -- If the memtable is in order, every file can be searched, no level has a newer version of the key
  -- than the levels before it, and a level below level 0 has one version at most, then a get answers
  -- with the memtable's version with the greatest sequence number up to the given one; if there is
  -- none, with the newest version of all files, or with nothing if that is a tombstone or no file has
  -- the key.
  pub get-Best :
      (crc32 : Bytes → ℕ) (fast : FastBloom) (open_file : Bytes → Result Bytes)
      (memtable : MemtableMap) (levels : SnapshotLevels)
      (found : SsTableMeta → Option MemtableRecord)
      → IsOrdered memtable
      → ((s : SsTableMeta)
          → Has s (all_files levels)
          → (open_file s.path >>= λ file. get_from_single_sstable crc32 fast file key)
            ≡ ok (found s))
      → IsLayered found levels
      → ((r : MemtableRecord) × Latest memtable (some r)
          × (get crc32 fast open_file memtable levels key sequence_number ≡ ok (some r)))
        ⊎ (Latest memtable none
            × ((o : Option MemtableRecord) × (get crc32 fast open_file memtable levels key
                    sequence_number
                  ≡ ok (visible_of o))
                × Best found o (all_files levels)))
  unfolding get
  get-Best crc32 fast open_file memtable levels found ordered reads layered =
      elim (Option-cases (latest_visible key sequence_number memtable)) [
        | inl q ↦
            let (o, e, b) =
              search_levels-Best
                (λ s. open_file s.path >>= λ file. get_from_single_sstable crc32 fast file key)
                found levels reads layered in
            inr (rw q at (latest_visible-Latest memtable ordered), (o, rw (q, get) e, b))
        | inr (r, q) ↦ inl (r, rw q at (latest_visible-Latest memtable ordered), rw (q, get) refl)
      ]
