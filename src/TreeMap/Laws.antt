-- ===== src/TreeMap/Laws.antt =====
-- Laws of `get` after an operation, and of the order of the keys.
use cere_db.Key.{swap}
use cere_db.Base.{
  inl, inr, Ordering-cases, ◌≡◌, refl, none, some, [], ◌∷◌, Ordering, arith, if◌then◌else◌,
}
use cere_db.Ord.{Ord}
use cere_db.TreeMap.{TreeMap, is_eq, get, insert, remove}

module _ {ℓ} {K : Type 0} {V : Type ℓ} ⦃o : Ord K⦄ where
  pub get-insert :
      (k j : K) (v : V) (m : TreeMap K V)
      → get j (insert k v m) ≡ (if is_eq (o.cmp j k) then some v else get j m)
  unfolding get insert
  get-insert k j v [] = ground arith
  get-insert k j v ((i, w) ∷ m) = ground (
    arith,
    get-insert k j v m,
    o.eq_of_cmp k i,
    o.eq_of_cmp j i,
    o.eq_of_cmp j k,
    o.cmp-swap k i,
    o.cmp-swap j i,
    o.cmp-swap j k,
    o.cmp_refl j,
    o.cmp_refl k,
  )

  pub get-remove :
      (k j : K) (m : TreeMap K V)
      → get j (remove k m) ≡ (if is_eq (o.cmp j k) then none else get j m)
  unfolding get remove
  get-remove k j [] = ground arith
  get-remove k j ((i, w) ∷ m) = ground (
    arith,
    get-remove k j m,
    o.eq_of_cmp k i,
    o.eq_of_cmp j i,
    o.eq_of_cmp j k,
    o.cmp-swap k i,
    o.cmp-swap j i,
    o.cmp-swap j k,
    o.cmp_refl j,
    o.cmp_refl k,
  )

  -- Every key lies behind `k`.
  abbrev pub Behind : K → TreeMap K V → Type ℓ
  Behind k [] = Unit
  Behind k ((j, w) ∷ m) = (o.cmp k j ≡ Ordering.lt) × Behind k m

  abbrev pub IsSorted : TreeMap K V → Type ℓ
  IsSorted [] = Unit
  IsSorted ((j, w) ∷ m) = Behind j m × IsSorted m

  Behind-trans : (k j : K) (m : TreeMap K V) → o.cmp k j ≡ Ordering.lt → Behind j m → Behind k m
  Behind-trans k j [] h b = tt
  Behind-trans k j ((i, w) ∷ m) h b = (o.cmp_trans k j i h b.0, Behind-trans k j m h b.1)

  Behind-insert :
      (i k : K) (v : V) (m : TreeMap K V)
      → o.cmp i k ≡ Ordering.lt
      → Behind i m
      → Behind i (insert k v m)
  unfolding insert
  Behind-insert i k v [] h b = (h, tt)
  Behind-insert i k v ((j, w) ∷ m) h b = elim (Ordering-cases (o.cmp k j)) [
    | inl e ↦ rw (e, insert) (h, b)
    | inr (inl e) ↦ rw (e, insert) (h, b.1)
    | inr (inr e) ↦ rw (e, insert) (b.0, Behind-insert i k v m h b.1)
  ]

  pub insert-IsSorted : (k : K) (v : V) (m : TreeMap K V) → IsSorted m → IsSorted (insert k v m)
  unfolding insert
  insert-IsSorted k v [] s = (tt, tt)
  insert-IsSorted k v ((j, w) ∷ m) s = elim (Ordering-cases (o.cmp k j)) [
    | inl e ↦ rw (e, insert) ((e, Behind-trans k j m e s.0), s)
    | inr (inl e) ↦ rw (e, insert) (rw (o.eq_of_cmp k j e) s.0, s.1)
    | inr (inr e) ↦
        rw (e, insert)
          (Behind-insert j k v m (rw (e, swap) at (o.cmp-swap k j)) s.0, insert-IsSorted k v m s.1)
  ]

  get-Behind : (k : K) (m : TreeMap K V) → Behind k m → get k m ≡ none
  unfolding get
  get-Behind k [] b = refl
  get-Behind k ((j, w) ∷ m) b = rw (b.0, get) (get-Behind k m b.1)

  -- Inserting what is there changes nothing.
  pub insert-same :
      (k : K) (v : V) (m : TreeMap K V) → IsSorted m → get k m ≡ some v → insert k v m ≡ m
  unfolding get insert
  insert-same k v [] s e = absurd (ground arith)
  insert-same k v ((j, w) ∷ m) s e = elim (Ordering-cases (o.cmp k j)) [
    | inl h ↦
        let gone : get k m ≡ none = get-Behind k m (Behind-trans k j m h s.0) in
        absurd (ground (arith, e, h, gone))
    | inr (inl h) ↦
        let same : w ≡ v = ground (arith, e, h) in rw (h, insert, same, o.eq_of_cmp k j h) refl
    | inr (inr h) ↦
        let there : get k m ≡ some v = ground (arith, e, h) in
        rw (h, insert, insert-same k v m s.1 there) refl
  ]
