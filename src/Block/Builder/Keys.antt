-- ===== src/Block/Builder/Keys.antt =====
-- The first and the last key of a block builder, beside its records' keys.
use cere_db.Base.{
  ℕ, ◌≤◌, ◌≡◌, ◌≢◌, refl, ap, ◌⊎◌, inl, inr, true, false, none, some, List, [], ◌∷◌, ◌++◌, arith,
  length, All, All-append, All-map, Has, Has-append_left, Has-append_last,
}
use cere_db.Bytes.{Bytes}
use cere_db.Key.{cmp, key_lt}
use cere_db.Key.Order.{key_lt_irrefl, key_lt_asymm, key_le_trans}
use cere_db.Memtable.{MemtableRecord, record_length}
use cere_db.Block.RoundTrip.{total_length}
use cere_db.Block.Builder.{BlockBuilder, lower_first, raise_last, new, store}

abbrev pub keys : List MemtableRecord → List Bytes
keys [] = []
keys (r ∷ rs) = r.key ∷ keys rs

pub keys-append : (rs ss : List MemtableRecord) → keys (rs ++ ss) ≡ keys rs ++ keys ss
keys-append [] ss = refl
keys-append (r ∷ rs) ss = rw (keys-append rs ss)

abbrev pub InRange : Bytes → Bytes → MemtableRecord → Type 0
InRange first last r = (key_lt r.key first ≡ false) × (key_lt last r.key ≡ false)

-- Two of the records have these keys, and all keys lie between them.
abbrev pub Spans : Bytes → Bytes → List MemtableRecord → Type 0
Spans first last rs = Has first (keys rs) × Has last (keys rs) × All (InRange first last) rs

-- A builder has no keys while it is empty, and the keys that span its records else.
pub data IsKeyed (b : BlockBuilder) : Type 0 where
  empty : b.records ≡ [] → b.first_key ≡ none → b.last_key ≡ none → IsKeyed b
  spanned :
      (first last : Bytes)
      → b.first_key ≡ some first
      → b.last_key ≡ some last
      → Spans first last b.records
      → IsKeyed b

pub new-IsKeyed : (offset : ℕ) → IsKeyed (new offset)
unfolding new
new-IsKeyed offset = empty refl refl refl

empty_lt : (k : Bytes) → k ≢ [] → key_lt [] k ≡ true
unfolding cmp
empty_lt [] h = absurd (h refl)
empty_lt (x ∷ k) h = refl

-- The bounds after a record with a key has been added.
abbrev lower : Bytes → Bytes → Bytes
lower first key = elim (key_lt key first) [ true ↦ key | false ↦ first ]

abbrev raise : Bytes → Bytes → Bytes
raise last key = elim (key_lt last key) [ true ↦ key | false ↦ last ]

lower_le :
    (first key : Bytes)
    → (key_lt first (lower first key) ≡ false) × (key_lt key (lower first key) ≡ false)
lower_le first key = ground (arith, key_lt_asymm key first, key_lt_irrefl key, key_lt_irrefl first)

raise_ge :
    (last key : Bytes)
    → (key_lt (raise last key) last ≡ false) × (key_lt (raise last key) key ≡ false)
raise_ge last key = ground (arith, key_lt_asymm last key, key_lt_irrefl key, key_lt_irrefl last)

lower-cases : (f k : Bytes) → (lower f k ≡ k) ⊎ (lower f k ≡ f)
lower-cases f k = ground arith

raise-cases : (l k : Bytes) → (raise l k ≡ k) ⊎ (raise l k ≡ l)
raise-cases l k = ground arith

Has-lower : (f k : Bytes) (ks : List Bytes) → Has f ks → Has (lower f k) (ks ++ k ∷ [])
Has-lower f k ks h = elim (lower-cases f k) [
  | inl e ↦ rw e (Has-append_last k ks)
  | inr e ↦ rw e (Has-append_left f ks (k ∷ []) h)
]

Has-raise : (l k : Bytes) (ks : List Bytes) → Has l ks → Has (raise l k) (ks ++ k ∷ [])
Has-raise l k ks h = elim (raise-cases l k) [
  | inl e ↦ rw e (Has-append_last k ks)
  | inr e ↦ rw e (Has-append_left l ks (k ∷ []) h)
]

Spans-append :
    (f l : Bytes) (rs : List MemtableRecord) (r : MemtableRecord)
    → Spans f l rs
    → Spans (lower f r.key) (raise l r.key) (rs ++ r ∷ [])
Spans-append f l rs r h =
    let k : Bytes = r.key in
    (
      rw (keys-append rs (r ∷ [])) (Has-lower f k (keys rs) h.0),
      rw (keys-append rs (r ∷ [])) (Has-raise l k (keys rs) h.1),
      All-append _ rs (r ∷ [])
          (All-map
            (λ x b. (
              key_le_trans (lower f k) f x.key (lower_le f k).0 b.0,
              key_le_trans x.key l (raise l k) b.1 (raise_ge l k).0,
            ))
            rs h.2)
          (((lower_le f k).1, (raise_ge l k).1), tt),
    )

pub store-IsKeyed :
    (b : BlockBuilder) (key : Bytes) (r : MemtableRecord)
    → key ≢ []
    → IsKeyed b
    → IsKeyed (store b key r)
unfolding store lower_first raise_last
store-IsKeyed b key r nonempty (empty e f l) =
    spanned key key (ground (arith, f)) (ground (arith, l, empty_lt key nonempty))
      (rw e ((inl refl), (inl refl), ((key_lt_irrefl key, key_lt_irrefl key), tt)))
store-IsKeyed b key r nonempty (spanned first last f l h) =
    spanned (lower first key) (raise last key) (ground (arith, f)) (ground (arith, l))
      (Spans-append first last b.records (record r { key = key }) h)

-- A key of a record is not longer than the records.
pub length-le-total_length :
    (k : Bytes) (rs : List MemtableRecord) → Has k (keys rs) → length k ≤ total_length rs
unfolding total_length record_length
length-le-total_length k [] h = absurd h
length-le-total_length k (r ∷ rs) (inl e) = omega (arith, ap length e)
length-le-total_length k (r ∷ rs) (inr h) = omega (arith, length-le-total_length k rs h)
