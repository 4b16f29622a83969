-- ===== src/TreeMap.antt =====
-- `std::collections::BTreeMap`: entries in the order of their keys, as the code iterates over them.
pub mod Laws
use cere_db.Base.{Bool, true, false, Option, none, some, List, [], ◌∷◌, Ordering}
use cere_db.Ord.{Ord}

abbrev pub TreeMap {ℓ} : Type 0 → Type ℓ → Type ℓ
TreeMap K V = List (K × V)

abbrev pub is_eq : Ordering → Bool
is_eq Ordering.eq = true
is_eq _ = false

module _ {ℓ} {K : Type 0} {V : Type ℓ} ⦃o : Ord K⦄ where
  unfoldable pub get : K → TreeMap K V → Option V
  get k [] = none
  get k ((j, v) ∷ m) = elim (is_eq (o.cmp k j)) [ true ↦ some v | false ↦ get k m ]

  -- `insert`: an entry with the key is replaced.
  unfoldable pub insert : K → V → TreeMap K V → TreeMap K V
  insert k v [] = (k, v) ∷ []
  insert k v ((j, w) ∷ m) = elim (o.cmp k j) [
    | Ordering.lt ↦ (k, v) ∷ ((j, w) ∷ m)
    | Ordering.eq ↦ (k, v) ∷ m
    | Ordering.gt ↦ (j, w) ∷ insert k v m
  ]

  unfoldable pub remove : K → TreeMap K V → TreeMap K V
  remove k [] = []
  remove k ((j, w) ∷ m) =
      let rest = remove k m in elim (is_eq (o.cmp k j)) [ true ↦ rest | false ↦ (j, w) ∷ rest ]

  unfoldable pub values : TreeMap K V → List V
  values [] = []
  values ((j, w) ∷ m) = w ∷ values m
