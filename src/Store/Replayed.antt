-- ===== src/Store/Replayed.antt =====
-- What the rebuilt tables say (src/engine/memory/store.py): each fill counts once, whatever else the
-- journal holds.
use mathlib.Core.List.{append_assoc, append-nil}
use proofalpha.Prelude.{
  String, true, false, none, List, ◌∷◌, [], ◌++◌, eq_iff, ◌≡◌, refl, sym, ap, subst, ◌∙◌, arith,
  and_iff, contains, map, Bool-cases, inl, inr,
}
use proofalpha.Prelude.Dict.{lookup}
use proofalpha.Prelude.Rows.{row_of, has_key, has_key-append}
use proofalpha.Python.Runtime.{Runtime}
use proofalpha.Store.Events.{ExecutionEvent}
use proofalpha.Store.Tables.{FillRow, Replay}
use proofalpha.Store.Fills.{
  first_fills, qty_over, cost_over, filled_over, filled_of, Accounts, accounts, counts_fill,
  accounts-replay_step, filled_of-replay_step,
}
use proofalpha.Store.Rebuild.{
  event_fill_id, fill_row, with_qty, with_cost, record_fill, is_new_fill, replay_step,
  replay_events, cleared, rebuilt, last_id,
}
use proofalpha.Store.Positions.{net_in, net_over, net_in-position_rows, lookup-qty_over}

module _ (R : Runtime) where
  -- What a replay makes of a state whose accounts are the given ones.
  abbrev Replayed : List (ExecutionEvent R.Float) → Replay R.Float → Accounts R → Type 0
  Replayed events r a =
      let s = replay_events R events r in
      let fills = first_fills R a.1 events in
      (s.fills ≡ a.0 ++ map (fill_row R) fills)
      × (s.position_qty ≡ qty_over R fills a.2)
      × (s.position_cost ≡ cost_over R fills a.3)
      × ((id : String) → filled_of R id s ≡ filled_over R id fills (filled_of R id r))

  Synced : Accounts R → Type 0
  Synced a = (id : String) → has_key (λ (f : FillRow R.Float). f.fill_id) id a.0 ≡ contains id a.1

  new_fill_unseen :
      (e : ExecutionEvent R.Float) (seen : List String)
      → is_new_fill R e seen ≡ true
      → contains (event_fill_id R e) seen ≡ false
  unfolding is_new_fill
  new_fill_unseen e seen h = ground arith

  -- The accounts with one more fill.
  abbrev with_fill : ExecutionEvent R.Float → Accounts R → Accounts R
  with_fill e a =
      (a.0 ++ (fill_row R e ∷ []), event_fill_id R e ∷ a.1, with_qty R e a.2, with_cost R e a.3)

  -- A fill that was not seen is a new row of the table.
  accounts-record_fill :
      (e : ExecutionEvent R.Float) (r : Replay R.Float)
      → Synced (accounts R r)
      → is_new_fill R e r.seen_fill_ids ≡ true
      → accounts R (record_fill R e r) ≡ with_fill e (accounts R r)
  unfolding Synced record_fill
  accounts-record_fill e r h new =
      rw (h (event_fill_id R e) ∙ new_fill_unseen e r.seen_fill_ids new) refl

  Synced-with_fill :
      (e : ExecutionEvent R.Float) (a : Accounts R) → Synced a → Synced (with_fill e a)
  unfolding Synced contains fill_row
  Synced-with_fill e a h id =
      has_key-append (λ (f : FillRow R.Float). f.fill_id) id a.0 (fill_row R e)
      ∙ ground (arith, h id, eq_iff (event_fill_id R e) id, eq_iff id (event_fill_id R e))

  replay_fills :
      (events : List (ExecutionEvent R.Float)) (r : Replay R.Float)
      → Synced (accounts R r)
      → Replayed events r (accounts R r)
  unfolding replay_events first_fills
  replay_fills [] r h = (sym (append-nil r.fills), refl, refl, λ id. refl)
  replay_fills (e ∷ rest) r h = elim (Bool-cases (counts_fill R e r)) [
    | inr none_new ↦
        let same : accounts R (replay_step R e r) ≡ accounts R r =
          accounts-replay_step R e r ∙ rw none_new refl in
        let (f, q, c, o) =
          subst (Replayed rest (replay_step R e r)) same
            (replay_fills rest (replay_step R e r) (subst Synced (sym same) h)) in
        rw (first_fills, none_new)
          (
            f,
            q,
            c,
            λ id.
                o id
                ∙ ap (filled_over R id (first_fills R r.seen_fill_ids rest))
                    (filled_of-replay_step R id e r ∙ rw none_new refl),
          )
    | inl new ↦
        let fresh = ((and_iff _ _).0 new).1 in
        let next : accounts R (replay_step R e r) ≡ with_fill e (accounts R r) =
          accounts-replay_step R e r ∙ rw new refl ∙ accounts-record_fill e r h fresh in
        let (f, q, c, o) = subst (Replayed rest (replay_step R e r)) next (
          replay_fills rest (replay_step R e r)
            (subst Synced (sym next) (Synced-with_fill e (accounts R r) h))) in
        rw (first_fills, new)
          (
            f ∙ append_assoc r.fills (fill_row R e ∷ []) _,
            q,
            c,
            λ id.
                o id
                ∙ ap (filled_over R id (first_fills R (event_fill_id R e ∷ r.seen_fill_ids) rest))
                    (filled_of-replay_step R id e r ∙ rw new refl),
          )
  ]

  -- The rebuilt tables count each fill once. The fills are the first fill events of their
  -- identifiers that name an order; the net quantities and the costs by symbol, and the filled
  -- quantity of every order, are the sums over these events, in their order. The row of a symbol in
  -- the table of positions has as its net quantity the sizes of these fills in the symbol added up,
  -- those of a SELL below zero; a symbol without such a fill has no row.
  pub rebuilt_fills :
      (events : List (ExecutionEvent R.Float))
      → let r = replay_events R events (cleared R) in
        let fills = first_fills R [] events in
        ((rebuilt R events).fills ≡ map (fill_row R) fills)
        × (r.position_qty ≡ qty_over R fills [])
        × (r.position_cost ≡ cost_over R fills [])
        × ((id : String) → filled_of R id r ≡ filled_over R id fills (R.lit 0 0))
        × ((s : String) → net_in R s (rebuilt R events).positions ≡ net_over R s none fills)
  unfolding rebuilt Synced contains has_key row_of lookup
  rebuilt_fills events =
      let (f, q, c, o) = replay_fills events (cleared R) (λ id. refl) in
      let r = replay_events R events (cleared R) in
      (
        f,
        q,
        c,
        o,
        λ s.
            net_in-position_rows R s r.position_cost (last_id R events) r.position_qty
            ∙ ap (lookup s) q
            ∙ lookup-qty_over R s (first_fills R [] events) [],
      )
