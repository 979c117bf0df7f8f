-- ===== src/Ledger/Duplicates.antt =====
-- Which fill ids `detect_duplicate_fills` reports, and which orders `detect_orphan_orders`
-- (src/engine/execution/reconciliation_repair.py).
use proofalpha.Prelude.{
  ℕ, suc, ◌+◌, String, Bool, not, List, ◌∷◌, [], ◌==◌, ◌&&◌, ◌||◌, ◌≡◌, refl, ◌∙◌, inl, inr, arith,
  if◌then◌else◌, contains, map, ltb, eq_iff, Bool-cases,
}
use proofalpha.Prelude.Dict.{Dict}
use proofalpha.Python.Runtime.{Runtime, Value}
use proofalpha.Python.Sets.{contains-sorted_set}
use proofalpha.Ledger.Repair.{
  gateway_fill_id, repeated, detect_duplicate_fills, absent_from, detect_orphan_orders,
}

-- how often a text stands in a list
abbrev pub count : String → List String → ℕ
count s [] = 0
count s (x ∷ xs) = if s == x then suc (count s xs) else count s xs

abbrev once_if : Bool → ℕ
once_if b = if b then 1 else 0

contains-repeated :
    (t : String) (ids seen duplicates : List String)
    → contains t (repeated seen duplicates ids) ≡ (
        contains t duplicates
        || (not (t == "")
            && ltb 1 (once_if (contains t seen) + count t ids)
            && ltb 0 (count t ids)))
unfolding repeated contains
contains-repeated t [] seen duplicates = ground arith
contains-repeated t (id ∷ ids) seen duplicates = elim (Bool-cases (id == "")) [
  | inl blank ↦ rw blank (
      ground
        (arith, contains-repeated t ids seen duplicates, eq_iff id "", eq_iff t "", eq_iff t id))
  | inr named ↦ elim (Bool-cases (contains id seen)) [
    | inl again ↦
        rw (named, again)
          (ground (
            arith,
            contains-repeated t ids (id ∷ seen) (id ∷ duplicates),
            eq_iff id "",
            eq_iff t "",
            eq_iff t id,
          ))
    | inr first ↦
        rw (named, first)
          (ground (
            arith,
            contains-repeated t ids (id ∷ seen) duplicates,
            eq_iff id "",
            eq_iff t "",
            eq_iff t id,
          ))
  ]
]

-- `detect_duplicate_fills` reports a text exactly when it is not empty and is the fill id of at
-- least two of the fills.
pub contains-detect_duplicate_fills :
    (R : Runtime) (fills : List (Dict (Value R.Float))) (t : String)
    → contains t (detect_duplicate_fills R fills)
      ≡ (not (t == "") && ltb 1 (count t (map (gateway_fill_id R) fills)))
unfolding detect_duplicate_fills
contains-detect_duplicate_fills R fills t =
    contains-sorted_set t (repeated [] [] (map (gateway_fill_id R) fills))
    ∙ contains-repeated t (map (gateway_fill_id R) fills) [] []
    ∙ unfold contains in ground arith

contains-absent_from :
    (t : String) (local ids : List String)
    → contains t (absent_from local ids) ≡ (contains t ids && not (contains t local))
unfolding absent_from contains
contains-absent_from t local [] = refl
contains-absent_from t local (id ∷ ids) =
    ground (arith, contains-absent_from t local ids, eq_iff t id)

-- `detect_orphan_orders` reports exactly the gateway's order ids that are not local ones.
pub contains-detect_orphan_orders :
    (t : String) (local gateway : List String)
    → contains t (detect_orphan_orders local gateway)
      ≡ (contains t gateway && not (contains t local))
unfolding detect_orphan_orders
contains-detect_orphan_orders t local gateway =
    contains-sorted_set t (absent_from local gateway) ∙ contains-absent_from t local gateway
