-- ===== src/Prelude/Rows.antt =====
-- The rows of a table with a text as their key.
use Prim.Native.String.{String}
use text.Mathlib.Text.{◌==◌}
use text.Mathlib.TextEquality.{eq_iff}
use text.Mathlib.TextPositions.{eq_refl}
use mathlib.Core.Path.{◌≡◌, refl}
use mathlib.Core.Logic.{inl, inr}
use mathlib.Core.Bool.{Bool, true, false, ◌||◌}
use mathlib.Core.Option.{Option, none, some}
use mathlib.Core.List.{List, [], ◌∷◌, ◌++◌}
use native.Mathlib.Omega.{arith}
use proofalpha.Prelude.Tests.{if◌then◌else◌, Bool-cases}

-- The rows whose key is or is not the given one.
unfoldable pub rows_at {ℓ} : {A : Type ℓ} → (A → String) → String → List A → List A
rows_at key id [] = []
rows_at key id (a ∷ rest) = if key a == id then a ∷ rows_at key id rest else rows_at key id rest

unfoldable pub rows_without {ℓ} : {A : Type ℓ} → (A → String) → String → List A → List A
rows_without key id [] = []
rows_without key id (a ∷ rest) =
    if key a == id then rows_without key id rest else a ∷ rows_without key id rest

unfoldable pub has_key {ℓ} : {A : Type ℓ} → (A → String) → String → List A → Bool
has_key key id [] = false
has_key key id (a ∷ rest) = if key a == id then true else has_key key id rest

-- the row with the given key
unfoldable pub row_of {ℓ} : {A : Type ℓ} → (A → String) → String → List A → Option A
row_of key id [] = none
row_of key id (a ∷ rest) = if key a == id then some a else row_of key id rest

-- `INSERT OR REPLACE`: the rows stand in the order of their insertion.
unfoldable pub replace_row {ℓ} : {A : Type ℓ} → (A → String) → A → List A → List A
unfolding rows_without
replace_row key a rows = rows_without key (key a) rows ++ (a ∷ [])

pub has_key-append :
    {A : Type 0} (key : A → String) (id : String) (rows : List A) (a : A)
    → has_key key id (rows ++ (a ∷ [])) ≡ (has_key key id rows || key a == id)
unfolding has_key
has_key-append key id [] a = elim (Bool-cases (key a == id)) [
  | inl e ↦ rw e refl
  | inr e ↦ rw e refl
]
has_key-append key id (b ∷ rows) a = elim (Bool-cases (key b == id)) [
  | inl e ↦ rw e refl
  | inr e ↦ rw e (has_key-append key id rows a)
]

row_of-append_self :
    {A : Type 0} (key : A → String) (a : A) (rows : List A)
    → row_of key (key a) (rows_without key (key a) rows ++ (a ∷ [])) ≡ some a
unfolding row_of rows_without
row_of-append_self key a [] = rw (eq_refl (key a)) refl
row_of-append_self key a (b ∷ rest) = elim (Bool-cases (key b == key a)) [
  | inl e ↦ rw e (row_of-append_self key a rest)
  | inr e ↦ rw e (rw e (row_of-append_self key a rest))
]

row_of-append_other :
    {A : Type 0} (key : A → String) (id : String) (a : A) (rows : List A)
    → (key a == id) ≡ false
    → row_of key id (rows_without key (key a) rows ++ (a ∷ [])) ≡ row_of key id rows
unfolding row_of rows_without
row_of-append_other key id a [] h = rw h refl
row_of-append_other key id a (b ∷ rest) h =
    let rec = row_of-append_other key id a rest h in
    ground (arith, eq_iff (key b) (key a), eq_iff (key b) id, eq_iff (key a) id)

pub row_of-replace_row :
    {A : Type 0} (key : A → String) (id : String) (a : A) (rows : List A)
    → row_of key id (replace_row key a rows) ≡ (if key a == id then some a else row_of key id rows)
unfolding replace_row
row_of-replace_row key id a rows = elim (Bool-cases (key a == id)) [
  | inl e ↦
      let same : key a ≡ id = (eq_iff (key a) id).0 e in
      rw (e, ← same) (row_of-append_self key a rows)
  | inr e ↦ rw e (row_of-append_other key id a rows e)
]
