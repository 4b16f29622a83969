-- ===== src/Manifest/Lookup.antt =====
-- The manifest's tables as a map from a level and an identifier, and the identifiers that are free.
use cere_db.Base.{
  ℕ, ◌+◌, ◌<◌, ◌≤◌, ◌^◌, ◌≡◌, refl, ◌∙◌, leb, ◌&&◌, Bool, true, Bool-cases, inl, inr, Option, none,
  some, Option-cases, List, [], ◌∷◌, arith, All, if◌then◌else◌, compare,
}
use cere_db.Ord.{nat_ord}
use cere_db.TreeMap
use cere_db.TreeMap.{TreeMap, is_eq}
use cere_db.TreeMap.Laws.{get-insert, get-remove}
use cere_db.Manifest.{SsTableMeta, Levels, ManifestState, initial}
use cere_db.Manifest.Replay.{
  or_default, put_meta, settle, drop_meta, drop_all, add_output, add_outputs, apply_compaction,
  replay_add, replay_remove,
}

files_at : Option (TreeMap ℕ SsTableMeta) → ℕ → Option SsTableMeta
files_at none id = none
files_at (some files) id = TreeMap.get id files

unfoldable pub lookup : ℕ → ℕ → Levels → Option SsTableMeta
unfolding files_at
lookup level id levels = files_at (TreeMap.get level levels) id

get-or_default :
    (o : Option (TreeMap ℕ SsTableMeta)) (id : ℕ) → TreeMap.get id (or_default o) ≡ files_at o id
unfolding files_at
get-or_default none id = unfold TreeMap.get in refl
get-or_default (some files) id = refl

-- Two places are the same.
abbrev is_at : ℕ → ℕ → ℕ → ℕ → Bool
is_at level id l i = is_eq (compare level l) && is_eq (compare id i)

eq_of_is_eq : (a b : ℕ) → is_eq (compare a b) ≡ true → a ≡ b
eq_of_is_eq a b h = ground arith

-- The table stands at its level and identifier, and all others stand where they stood.
pub lookup-put_meta :
    (m : SsTableMeta) (levels : Levels) (level id : ℕ)
    → lookup level id (put_meta m levels)
      ≡ (if is_at level id m.level m.file_id then some m else lookup level id levels)
unfolding lookup put_meta files_at
lookup-put_meta m levels level id =
    rw
      (get-insert m.level level
        (TreeMap.insert m.file_id m (or_default (TreeMap.get m.level levels))) levels)
      (elim (Bool-cases (is_eq (compare level m.level))) [
        | inr e ↦ rw e refl
        | inl e ↦ rw e (
            get-insert m.file_id id m (or_default (TreeMap.get m.level levels))
            ∙ rw (eq_of_is_eq level m.level e, get-or_default (TreeMap.get m.level levels) id) refl)
      ])

get-settle :
    (l level : ℕ) (files : TreeMap ℕ SsTableMeta) (levels : Levels) (id : ℕ)
    → files_at (TreeMap.get level (settle l files levels)) id ≡ (
        if is_eq (compare level l)
        then TreeMap.get id files
        else files_at (TreeMap.get level levels) id)
unfolding settle files_at
get-settle l level [] levels id =
    rw (get-remove l level levels) (elim (Bool-cases (is_eq (compare level l))) [
      | inl e ↦ rw e (unfold TreeMap.get in refl)
      | inr e ↦ rw e refl
    ])
get-settle l level (f ∷ files) levels id =
    rw (get-insert l level (f ∷ files) levels)
      (elim (Bool-cases (is_eq (compare level l))) [ inl e ↦ rw e refl | inr e ↦ rw e refl ])

absent :
    (l i : ℕ) (levels : Levels) (level id : ℕ)
    → TreeMap.get l levels ≡ none
    → lookup level id levels ≡ (if is_at level id l i then none else lookup level id levels)
unfolding lookup files_at
absent l i levels level id e = elim (Bool-cases (is_eq (compare level l))) [
  | inr h ↦ rw h refl
  | inl h ↦
      rw (h, eq_of_is_eq level l h, e)
        (elim (Bool-cases (is_eq (compare id i))) [ inl k ↦ rw k refl | inr k ↦ rw k refl ])
]

present :
    (l i : ℕ) (levels : Levels) (files : TreeMap ℕ SsTableMeta) (level id : ℕ)
    → TreeMap.get l levels ≡ some files
    → (if is_eq (compare level l)
        then (if is_eq (compare id i) then none else TreeMap.get id files)
        else lookup level id levels)
      ≡ (if is_at level id l i then none else lookup level id levels)
unfolding lookup files_at
present l i levels files level id e = elim (Bool-cases (is_eq (compare level l))) [
  | inr h ↦ rw h refl
  | inl h ↦ rw (h, eq_of_is_eq level l h, e) refl
]

-- The table at the level and identifier is gone, and all others stand where they stood.
pub lookup-drop_meta :
    (l i : ℕ) (levels : Levels) (level id : ℕ)
    → lookup level id (drop_meta l i levels)
      ≡ (if is_at level id l i then none else lookup level id levels)
unfolding lookup drop_meta
lookup-drop_meta l i levels level id = elim (Option-cases (TreeMap.get l levels)) [
  | inl e ↦ rw (e, drop_meta) (absent l i levels level id e)
  | inr (files, e) ↦
      rw
        (e, drop_meta, get-settle l level (TreeMap.remove i files) levels id, get-remove i id files)
        (present l i levels files level id e)
]

-- Every table has an identifier below the next one.
abbrev pub AreBelow : ℕ → Levels → Type 0
AreBelow next levels =
    (level id : ℕ) (m : SsTableMeta) → lookup level id levels ≡ some m → id < next

pub AreBelow-mono : (n n' : ℕ) (levels : Levels) → n ≤ n' → AreBelow n levels → AreBelow n' levels
AreBelow-mono n n' levels h f level id m e = omega (arith, f level id m e)

pub AreBelow-put_meta :
    (m : SsTableMeta) (next : ℕ) (levels : Levels)
    → m.file_id < next
    → AreBelow next levels
    → AreBelow next (put_meta m levels)
AreBelow-put_meta m next levels h f level id w e =
    let e' = rw (lookup-put_meta m levels level id) at e in
    ground (arith, e', eq_of_is_eq id m.file_id, f level id w)

pub AreBelow-drop_meta :
    (l i : ℕ) (next : ℕ) (levels : Levels)
    → AreBelow next levels
    → AreBelow next (drop_meta l i levels)
AreBelow-drop_meta l i next levels f level id w e =
    let e' = rw (lookup-drop_meta l i levels level id) at e in ground (arith, e', f level id w)

AreBelow-drop_all :
    (rs : List (ℕ × ℕ)) (next : ℕ) (levels : Levels)
    → AreBelow next levels
    → AreBelow next (drop_all rs levels)
unfolding drop_all
AreBelow-drop_all [] next levels f = f
AreBelow-drop_all ((l, i) ∷ rs) next levels f =
    AreBelow-drop_all rs next (drop_meta l i levels) (AreBelow-drop_meta l i next levels f)

abbrev pub IsFresh : ManifestState → Type 0
IsFresh s = AreBelow s.next_file_id s.levels

-- There is an identifier behind that of the table.
abbrev pub HasNext : SsTableMeta → Type 0
HasNext m = m.file_id + 1 < 2 ^ 64

pub IsFresh-initial : IsFresh initial
unfolding lookup files_at
IsFresh-initial level id m e = absurd (unfold TreeMap.get in ground (arith, e))

pub IsFresh-replay_add :
    (s : ManifestState) (m : SsTableMeta) → HasNext m → IsFresh s → IsFresh (replay_add s m)
unfolding replay_add
IsFresh-replay_add s m h f = elim (Bool-cases (leb s.next_file_id m.file_id)) [
  | inl e ↦
      rw (e, replay_add)
        (AreBelow-put_meta m _ s.levels (omega arith)
          (AreBelow-mono s.next_file_id _ s.levels (ground (arith, e)) f))
  | inr e ↦ rw (e, replay_add) (AreBelow-put_meta m _ s.levels (ground (arith, e)) f)
]

pub IsFresh-replay_remove :
    (s : ManifestState) (l i : ℕ) → IsFresh s → IsFresh (replay_remove s l i)
unfolding replay_remove
IsFresh-replay_remove s l i f = AreBelow-drop_meta l i s.next_file_id s.levels f

IsFresh-add_outputs :
    (s : ManifestState) (ms : List SsTableMeta)
    → All HasNext ms
    → IsFresh s
    → IsFresh (add_outputs s ms)
unfolding add_outputs add_output
IsFresh-add_outputs s [] h f = f
IsFresh-add_outputs s (m ∷ ms) h f = IsFresh-add_outputs (add_output s m) ms h.1 (
    AreBelow-put_meta m _ s.levels (omega (arith, h.0))
      (AreBelow-mono s.next_file_id _ s.levels (omega arith) f))

pub IsFresh-apply_compaction :
    (s : ManifestState) (rs : List (ℕ × ℕ)) (ms : List SsTableMeta)
    → All HasNext ms
    → IsFresh s
    → IsFresh (apply_compaction s rs ms)
unfolding apply_compaction
IsFresh-apply_compaction s rs ms h f =
    IsFresh-add_outputs (record s { levels = drop_all rs s.levels }) ms h
      (AreBelow-drop_all rs s.next_file_id s.levels f)
