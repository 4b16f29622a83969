-- ===== src/Wal/Directory.antt =====
-- The directory of a log whose segments have consecutive identifiers: what the map operations of the
-- writer make of it.
use cere_db.Base.{ℕ, ◌+◌, ◌≤◌, ◌≡◌, refl, true, Option, some, none, [], ◌∷◌, ◌++◌, arith}
use cere_db.Error.{ok}
use cere_db.Bytes.{Bytes}
use cere_db.Ord.{nat_ord}
use cere_db.TreeMap
use cere_db.Wal.Segments.{
  Segments, segments_from, starts_at, is_consecutive, segment_paths, last_id, is_missing,
}

-- The identifiers count up from `id`.
abbrev pub IsFrom : ℕ → Segments → Type 0
IsFrom id [] = Unit {0}
IsFrom id ((j, bytes) ∷ ss) = (j ≡ id) × IsFrom (id + 1) ss

pub last-le :
    (first id : ℕ) (old : Bytes) (ss : Segments) → IsFrom first (ss ++ (id, old) ∷ []) → first ≤ id
last-le first id old [] h = omega (arith, h.0)
last-le first id old ((j, bytes) ∷ ss) h = omega (arith, last-le (first + 1) id old ss h.1)

pub insert-last :
    (first id : ℕ) (old new : Bytes) (ss : Segments)
    → IsFrom first (ss ++ (id, old) ∷ [])
    → TreeMap.insert id new (ss ++ (id, old) ∷ []) ≡ ss ++ (id, new) ∷ []
unfolding TreeMap.insert
insert-last first id old new [] h = ground arith
insert-last first id old new ((j, bytes) ∷ ss) h =
    ground
      (arith, insert-last (first + 1) id old new ss h.1, last-le (first + 1) id old ss h.1, h.0)

pub insert-next :
    (first id : ℕ) (old new : Bytes) (ss : Segments)
    → IsFrom first (ss ++ (id, old) ∷ [])
    → TreeMap.insert (id + 1) new (ss ++ (id, old) ∷ [])
      ≡ (ss ++ (id, old) ∷ []) ++ (id + 1, new) ∷ []
unfolding TreeMap.insert
insert-next first id old new [] h = ground arith
insert-next first id old new ((j, bytes) ∷ ss) h =
    ground
      (arith, insert-next (first + 1) id old new ss h.1, last-le (first + 1) id old ss h.1, h.0)

pub get-last :
    (first id : ℕ) (old : Bytes) (ss : Segments)
    → IsFrom first (ss ++ (id, old) ∷ [])
    → TreeMap.get id (ss ++ (id, old) ∷ []) ≡ some old
unfolding TreeMap.get
get-last first id old [] h = ground arith
get-last first id old ((j, bytes) ∷ ss) h =
    ground (arith, get-last (first + 1) id old ss h.1, last-le (first + 1) id old ss h.1, h.0)

pub next-is_missing :
    (first id : ℕ) (old : Bytes) (ss : Segments)
    → IsFrom first (ss ++ (id, old) ∷ [])
    → is_missing (id + 1) (ss ++ (id, old) ∷ []) ≡ true
unfolding is_missing TreeMap.get
next-is_missing first id old [] h = ground arith
next-is_missing first id old ((j, bytes) ∷ ss) h =
    ground
      (arith, next-is_missing (first + 1) id old ss h.1, last-le (first + 1) id old ss h.1, h.0)

pub IsFrom-next :
    (first id : ℕ) (old new : Bytes) (ss : Segments)
    → IsFrom first (ss ++ (id, old) ∷ [])
    → IsFrom first ((ss ++ (id, old) ∷ []) ++ (id + 1, new) ∷ [])
IsFrom-next first id old new [] h = (h.0, (omega (arith, h.0), tt))
IsFrom-next first id old new ((j, bytes) ∷ ss) h = (h.0, IsFrom-next (first + 1) id old new ss h.1)

pub IsFrom-last :
    (first id : ℕ) (old new : Bytes) (ss : Segments)
    → IsFrom first (ss ++ (id, old) ∷ [])
    → IsFrom first (ss ++ (id, new) ∷ [])
IsFrom-last first id old new [] h = h
IsFrom-last first id old new ((j, bytes) ∷ ss) h = (h.0, IsFrom-last (first + 1) id old new ss h.1)

from-is_consecutive : (first : ℕ) (ss : Segments) → IsFrom first ss → is_consecutive ss ≡ true
unfolding is_consecutive
from-is_consecutive first [] h = refl
from-is_consecutive first ((j, bytes) ∷ []) h = refl
from-is_consecutive first ((j, bytes) ∷ (k, more) ∷ ss) h =
    ground (arith, from-is_consecutive (first + 1) ((k, more) ∷ ss) h.1, h.0, h.1.0)

segments_from-IsFrom :
    (first id : ℕ) (ss : Segments) → IsFrom id ss → first ≤ id → segments_from first ss ≡ ss
unfolding segments_from
segments_from-IsFrom first id [] h le = refl
segments_from-IsFrom first id ((j, bytes) ∷ ss) h le =
    ground (arith, segments_from-IsFrom first (id + 1) ss h.1, h.0)

starts_at-IsFrom :
    (first n id : ℕ) (old : Bytes) (ss : Segments)
    → IsFrom first (ss ++ (id, old) ∷ [])
    → n ≡ first
    → starts_at n (ss ++ (id, old) ∷ []) ≡ true
unfolding starts_at
starts_at-IsFrom first n id old [] h e = ground (arith, h.0, e)
starts_at-IsFrom first n id old ((j, bytes) ∷ ss) h e = ground (arith, h.0, e)

-- All segments are read if there is no floor, or if it is the first of them.
pub segment_paths-IsFrom :
    (first id : ℕ) (old : Bytes) (ss : Segments) (floor : Option ℕ)
    → IsFrom first (ss ++ (id, old) ∷ [])
    → ((n : ℕ) → floor ≡ some n → n ≡ first)
    → segment_paths (ss ++ (id, old) ∷ []) floor ≡ ok (ss ++ (id, old) ∷ [])
unfolding segment_paths
segment_paths-IsFrom first id old ss none h f =
    rw (from-is_consecutive first (ss ++ (id, old) ∷ []) h) refl
segment_paths-IsFrom first id old ss (some n) h f =
    let here : n ≡ first = f n refl in
    let all : segments_from n (ss ++ (id, old) ∷ []) ≡ ss ++ (id, old) ∷ [] =
      segments_from-IsFrom n first (ss ++ (id, old) ∷ []) h (omega (arith, here)) in
    let first_one : starts_at n (ss ++ (id, old) ∷ []) ≡ true =
      starts_at-IsFrom first n id old ss h here in
    rw (all, first_one, from-is_consecutive first (ss ++ (id, old) ∷ []) h) refl

pub last_id-IsFrom :
    (first id : ℕ) (old : Bytes) (ss : Segments) → last_id (ss ++ (id, old) ∷ []) ≡ id
unfolding last_id
last_id-IsFrom first id old [] = refl
last_id-IsFrom first id old (s ∷ []) = refl
last_id-IsFrom first id old (s ∷ t ∷ ss) = last_id-IsFrom first id old (t ∷ ss)
