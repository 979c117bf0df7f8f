-- ===== src/Ledger/Replay.antt =====
-- The projection depends only on the first event of each fill and on the funding events, so that
-- fills delivered again change nothing (src/engine/execution/state_projection.py).
use proofalpha.Prelude.{
  String, Bool, true, false, List, ◌∷◌, [], ◌==◌, ◌≡◌, refl, ap, inl, inr, if◌then◌else◌, contains,
  Bool-cases,
}
use proofalpha.Python.Runtime.{Runtime}
use proofalpha.Python.Convert.{Result, ok, err, ◌>>=◌, Ensures, Ensures->>=}
use proofalpha.Ledger.Event.{LedgerEvent}
use proofalpha.Ledger.Projection.{
  Running, require, float_or_zero, fill_id_of, new_fill, apply_fill, apply_funding, apply_event,
  apply_events, start, finish, rebuild_state_projection,
}

module _ (R : Runtime) where
  abbrev pub is_fill : LedgerEvent R.Float → Bool
  is_fill e = e.event_type == "FILL"

  -- The funding events and the first event of each fill, given the fill ids seen before.
  unfoldable pub essential : List String → List (LedgerEvent R.Float) → List (LedgerEvent R.Float)
  essential seen [] = []
  essential seen (e ∷ es) =
      let again = essential seen es in
      let first = e ∷ essential (fill_id_of R e ∷ seen) es in
      let funding = e ∷ essential seen es in
      if is_fill e
      then (if contains (fill_id_of R e) seen then again else first)
      else if e.event_type == "FUNDING"
      then funding
      else again

  -- The ids of the fills seen are those of a given state.
  abbrev Sees : List String → Running R.Float → Type 0
  Sees ids t = t.seen_fills ≡ ids

  new_fill-seen :
      (e : LedgerEvent R.Float) (s : Running R.Float) → Ensures (Sees s.seen_fills) (new_fill R e s)
  unfolding new_fill
  new_fill-seen e s =
      let P = Sees s.seen_fills in
      Ensures->>= P (require R "symbol" e.payload) _ λ symbol.
        Ensures->>= P (require R "side" e.payload) _ λ side.
          Ensures->>= P (float_or_zero R "qty" e.payload) _ λ qty.
            Ensures->>= P (float_or_zero R "price" e.payload) _
              λ price. Ensures->>= P (float_or_zero R "fee" e.payload) _ λ fee. refl

  apply_funding-seen :
      (e : LedgerEvent R.Float) (s : Running R.Float)
      → Ensures (Sees s.seen_fills) (apply_funding R e s)
  unfolding apply_funding
  apply_funding-seen e s =
      Ensures->>= (Sees s.seen_fills) (float_or_zero R "amount" e.payload) _ λ amount. refl

  -- Both lists give the same result from every state in which the ids `seen` have been seen.
  abbrev AgreeFrom : List String → List (LedgerEvent R.Float) → List (LedgerEvent R.Float) → Type 0
  AgreeFrom seen xs ys =
      (s : Running R.Float) → s.seen_fills ≡ seen → apply_events R xs s ≡ apply_events R ys s

  after_agreeing :
      (xs ys : List (LedgerEvent R.Float)) (seen : List String) (r : Result (Running R.Float))
      → Ensures (Sees seen) r
      → AgreeFrom seen xs ys
      → (r >>= apply_events R xs) ≡ (r >>= apply_events R ys)
  after_agreeing xs ys seen (ok t) h agree = agree t h
  after_agreeing xs ys seen (err e) h agree = refl

  known_fill :
      (e : LedgerEvent R.Float) (s : Running R.Float)
      → is_fill e ≡ true
      → contains (fill_id_of R e) s.seen_fills ≡ true
      → apply_event R e s ≡ ok s
  unfolding apply_event apply_fill
  known_fill e s f c = rw (f, c)

  first_fill :
      (e : LedgerEvent R.Float) (s : Running R.Float)
      → is_fill e ≡ true
      → contains (fill_id_of R e) s.seen_fills ≡ false
      → Ensures (Sees (fill_id_of R e ∷ s.seen_fills)) (apply_event R e s)
  unfolding apply_event apply_fill
  first_fill e s f c =
      rw (f, c) (new_fill-seen e (record s { seen_fills = fill_id_of R e ∷ s.seen_fills }))

  funding_keeps :
      (e : LedgerEvent R.Float) (s : Running R.Float)
      → is_fill e ≡ false
      → (e.event_type == "FUNDING") ≡ true
      → Ensures (Sees s.seen_fills) (apply_event R e s)
  unfolding apply_event
  funding_keeps e s f c = rw (f, c) (apply_funding-seen e s)

  other_event :
      (e : LedgerEvent R.Float) (s : Running R.Float)
      → is_fill e ≡ false
      → (e.event_type == "FUNDING") ≡ false
      → apply_event R e s ≡ ok s
  unfolding apply_event
  other_event e s f c = rw (f, c)

  pub essential_known :
      (e : LedgerEvent R.Float) (es : List (LedgerEvent R.Float)) (seen : List String)
      → is_fill e ≡ true
      → contains (fill_id_of R e) seen ≡ true
      → essential seen (e ∷ es) ≡ essential seen es
  unfolding essential
  essential_known e es seen f c = rw (f, c)

  pub essential_first :
      (e : LedgerEvent R.Float) (es : List (LedgerEvent R.Float)) (seen : List String)
      → is_fill e ≡ true
      → contains (fill_id_of R e) seen ≡ false
      → essential seen (e ∷ es) ≡ e ∷ essential (fill_id_of R e ∷ seen) es
  unfolding essential
  essential_first e es seen f c = rw (f, c)

  pub essential_funding :
      (e : LedgerEvent R.Float) (es : List (LedgerEvent R.Float)) (seen : List String)
      → is_fill e ≡ false
      → (e.event_type == "FUNDING") ≡ true
      → essential seen (e ∷ es) ≡ e ∷ essential seen es
  unfolding essential
  essential_funding e es seen f c = rw (f, c)

  pub essential_other :
      (e : LedgerEvent R.Float) (es : List (LedgerEvent R.Float)) (seen : List String)
      → is_fill e ≡ false
      → (e.event_type == "FUNDING") ≡ false
      → essential seen (e ∷ es) ≡ essential seen es
  unfolding essential
  essential_other e es seen f c = rw (f, c)

  -- one event, by its kind
  agree_step :
      (e : LedgerEvent R.Float) (es : List (LedgerEvent R.Float)) (seen : List String)
      → AgreeFrom seen es (essential seen es)
      → AgreeFrom (fill_id_of R e ∷ seen) es (essential (fill_id_of R e ∷ seen) es)
      → AgreeFrom seen (e ∷ es) (essential seen (e ∷ es))
  unfolding apply_events
  agree_step e es seen same more s h = elim (Bool-cases (is_fill e)) [
    | inl f ↦ elim (Bool-cases (contains (fill_id_of R e) seen)) [
      | inl old ↦ rw (essential_known e es seen f old, known_fill e s f (rw h old)) (same s h)
      | inr new ↦ rw (essential_first e es seen f new) (
          after_agreeing es (essential (fill_id_of R e ∷ seen) es) (fill_id_of R e ∷ seen)
            (apply_event R e s) (rw (← h) (first_fill e s f (rw h new))) more)
    ]
    | inr f ↦ elim (Bool-cases (e.event_type == "FUNDING")) [
      | inl funding ↦ rw (essential_funding e es seen f funding) (
          after_agreeing es (essential seen es) seen (apply_event R e s)
            (rw (← h) (funding_keeps e s f funding)) same)
      | inr other ↦ rw (essential_other e es seen f other, other_event e s f other) (same s h)
    ]
  ]

  apply_events-essential :
      (es : List (LedgerEvent R.Float)) (seen : List String) → AgreeFrom seen es (essential seen es)
  unfolding essential
  apply_events-essential [] seen s h = refl
  apply_events-essential (e ∷ es) seen s h =
      agree_step e es seen (apply_events-essential es seen)
        (apply_events-essential es (fill_id_of R e ∷ seen)) s h

  -- The projection of a ledger is that of its funding events and of the first event of each fill,
  -- in their order: orders, risk events, events of any other type and repeated fills have no part
  -- in it, whatever their payloads hold.
  pub rebuild-essential :
      (es : List (LedgerEvent R.Float))
      → rebuild_state_projection R es ≡ rebuild_state_projection R (essential [] es)
  unfolding rebuild_state_projection
  rebuild-essential es =
      ap (λ r. r >>= λ s. ok (finish R s)) (apply_events-essential es [] (start R) refl)
