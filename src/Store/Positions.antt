-- ===== src/Store/Positions.antt =====
-- The net quantities that a rebuild writes to the table `positions` (src/engine/memory/store.py).
use mathlib.Core.Option
use proofalpha.Prelude.{
  ℕ, String, Bool, Option, none, some, List, ◌∷◌, [], ◌==◌, ◌&&◌, ◌≡◌, refl, ap, ◌∙◌, arith,
  if◌then◌else◌, Bool-cases, inl, inr, eq_iff,
}
use proofalpha.Prelude.Dict.{Dict, lookup, get_or, lookup-insert}
use proofalpha.Prelude.Rows.{row_of}
use proofalpha.Python.Runtime.{Runtime}
use proofalpha.Store.Events.{ExecutionEvent}
use proofalpha.Store.Tables.{PositionRow}
use proofalpha.Store.Rebuild.{has_text, signed_quantity, with_qty, position_rows}
use proofalpha.Store.Fills.{qty_over}

module _ (R : Runtime) where
  -- What a fill adds to the position in its symbol: its size, below zero for a SELL.
  abbrev pub bought : Option String → Option R.Float → R.Float
  bought side none = R.lit 0 0
  bought side (some qty) =
      R.mul (if R.upper (get_or side "") == "SELL" then R.neg (R.lit 1 0) else R.lit 1 0)
        (R.abs qty)

  -- The fill is of the symbol.
  abbrev pub is_in : String → ExecutionEvent R.Float → Bool
  is_in s e = has_text e.arguments.symbol && (get_or e.arguments.symbol "" == s)

  -- The net quantity of the fills in a symbol, after some others that net to `o`.
  pub net_over : String → Option R.Float → List (ExecutionEvent R.Float) → Option R.Float
  net_over s o [] = o
  net_over s o (e ∷ fills) =
      net_over s
        (if is_in s e
          then some (R.add (get_or o (R.lit 0 0)) (bought e.arguments.side e.arguments.qty))
          else o)
        fills

  signed_quantity-bought :
      (side : Option String) (qty : Option R.Float) → signed_quantity R side qty ≡ bought side qty
  unfolding signed_quantity
  signed_quantity-bought side none = refl
  signed_quantity-bought side (some q) = refl

  lookup-with_qty :
      (s : String) (e : ExecutionEvent R.Float) (d : Dict R.Float)
      → lookup s (with_qty R e d) ≡ (
          if is_in s e
          then some
              (R.add (get_or (lookup s d) (R.lit 0 0)) (bought e.arguments.side e.arguments.qty))
          else lookup s d)
  unfolding with_qty
  lookup-with_qty s e d = elim (Bool-cases (has_text e.arguments.symbol)) [
    | inr n ↦ rw n refl
    | inl y ↦
        let k = get_or e.arguments.symbol "" in
        let x = signed_quantity R e.arguments.side e.arguments.qty in
        let b = signed_quantity-bought e.arguments.side e.arguments.qty in
        let added = lookup-insert k s (R.add (get_or (lookup k d) (R.lit 0 0)) x) d in
        elim (Bool-cases (k == s)) [
          | inl q ↦
              let same : k ≡ s = ground (arith, q, eq_iff k s) in
              rw (y, q) (added ∙ rw (q, same, b) refl)
          | inr q ↦ rw (y, q) (added ∙ rw q refl)
        ]
  ]

  pub lookup-qty_over :
      (s : String) (fills : List (ExecutionEvent R.Float)) (d : Dict R.Float)
      → lookup s (qty_over R fills d) ≡ net_over s (lookup s d) fills
  unfolding net_over
  lookup-qty_over s [] d = refl
  lookup-qty_over s (e ∷ fills) d =
      lookup-qty_over s fills (with_qty R e d)
      ∙ ap (λ o. net_over s o fills) (lookup-with_qty s e d)

  abbrev pub net_in : String → List (PositionRow R.Float) → Option R.Float
  net_in s rows =
      Option.map (λ (p : PositionRow R.Float). p.net_qty)
        (row_of (λ (p : PositionRow R.Float). p.symbol) s rows)

  pub net_in-position_rows :
      (s : String) (cost : Dict R.Float) (last : Option ℕ) (d : Dict R.Float)
      → net_in s (position_rows R cost last d) ≡ lookup s d
  unfolding position_rows row_of lookup
  net_in-position_rows s cost last [] = refl
  net_in-position_rows s cost last ((k, x) ∷ d) = elim (Bool-cases (k == s)) [
    | inl e ↦ rw e refl
    | inr e ↦ rw e (net_in-position_rows s cost last d)
  ]
