-- ===== src/Ledger/Redelivery.antt =====
-- Fills that are delivered again change nothing (src/engine/execution/state_projection.py).
use proofalpha.Prelude.{
  String, true, false, List, ◌∷◌, [], ◌++◌, ◌==◌, ◌||◌, ◌≡◌, refl, sym, ◌∙◌, ap, inl, inr, arith,
  if◌then◌else◌, contains, All, All-map, eq_iff, Bool-cases,
}
use proofalpha.Python.Runtime.{Runtime}
use proofalpha.Ledger.Event.{LedgerEvent}
use proofalpha.Ledger.Projection.{fill_id_of, rebuild_state_projection}
use proofalpha.Ledger.Replay.{
  is_fill, essential, essential_known, essential_first, essential_funding, essential_other,
  rebuild-essential,
}

module _ (R : Runtime) where
  -- the ids of the fills of a ledger
  unfoldable pub fill_ids : List (LedgerEvent R.Float) → List String
  fill_ids [] = []
  fill_ids (e ∷ es) = if is_fill R e then fill_id_of R e ∷ fill_ids es else fill_ids es

  -- A fill with an id that was seen or that stands in the ledger.
  abbrev pub IsKnown : List String → List (LedgerEvent R.Float) → LedgerEvent R.Float → Type 0
  IsKnown seen es d =
      (is_fill R d ≡ true)
      × ((contains (fill_id_of R d) seen || contains (fill_id_of R d) (fill_ids es)) ≡ true)

  known_or_listed :
      (id x : String) (seen ids : List String)
      → contains x seen ≡ true
      → (contains id seen || contains id (x ∷ ids)) ≡ true
      → (contains id seen || contains id ids) ≡ true
  unfolding contains
  known_or_listed id x seen ids h k = ground (arith, eq_iff id x)

  move_to_seen :
      (id x : String) (seen ids : List String)
      → (contains id seen || contains id (x ∷ ids)) ≡ true
      → (contains id (x ∷ seen) || contains id ids) ≡ true
  unfolding contains
  move_to_seen id x seen ids k = ground arith

  IsKnown-old :
      (e : LedgerEvent R.Float) (es : List (LedgerEvent R.Float)) (seen : List String)
      → is_fill R e ≡ true
      → contains (fill_id_of R e) seen ≡ true
      → (d : LedgerEvent R.Float) → IsKnown seen (e ∷ es) d
      → IsKnown seen es d
  unfolding fill_ids
  IsKnown-old e es seen f c d (fill, k) =
      (fill, known_or_listed (fill_id_of R d) (fill_id_of R e) seen (fill_ids es) c (rw f at k))

  IsKnown-new :
      (e : LedgerEvent R.Float) (es : List (LedgerEvent R.Float)) (seen : List String)
      → is_fill R e ≡ true
      → (d : LedgerEvent R.Float) → IsKnown seen (e ∷ es) d
      → IsKnown (fill_id_of R e ∷ seen) es d
  unfolding fill_ids
  IsKnown-new e es seen f d (fill, k) =
      (fill, move_to_seen (fill_id_of R d) (fill_id_of R e) seen (fill_ids es) (rw f at k))

  IsKnown-other :
      (e : LedgerEvent R.Float) (es : List (LedgerEvent R.Float)) (seen : List String)
      → is_fill R e ≡ false
      → (d : LedgerEvent R.Float) → IsKnown seen (e ∷ es) d
      → IsKnown seen es d
  unfolding fill_ids
  IsKnown-other e es seen f d (fill, k) = (fill, rw f at k)

  All-known :
      (ds : List (LedgerEvent R.Float)) (seen : List String)
      → All (IsKnown seen []) ds
      → essential R seen ds ≡ []
  unfolding fill_ids contains
  All-known [] seen h = unfold essential in refl
  All-known (d ∷ ds) seen h =
      essential_known R d ds seen h.0.0 (ground arith) ∙ All-known ds seen h.1

  -- one event of the ledger, by its kind
  skip_step :
      (e : LedgerEvent R.Float) (es ds : List (LedgerEvent R.Float)) (seen : List String)
      → (All (IsKnown seen es) ds → essential R seen (es ++ ds) ≡ essential R seen es)
      → (All (IsKnown (fill_id_of R e ∷ seen) es) ds
          → essential R (fill_id_of R e ∷ seen) (es ++ ds) ≡ essential R (fill_id_of R e ∷ seen) es)
      → All (IsKnown seen (e ∷ es)) ds
      → essential R seen (e ∷ (es ++ ds)) ≡ essential R seen (e ∷ es)
  skip_step e es ds seen same more h = elim (Bool-cases (is_fill R e)) [
    | inl f ↦ elim (Bool-cases (contains (fill_id_of R e) seen)) [
      | inl old ↦
          essential_known R e (es ++ ds) seen f old
          ∙ same
              (All-map (IsKnown seen (e ∷ es)) (IsKnown seen es) ds (IsKnown-old e es seen f old) h)
          ∙ sym (essential_known R e es seen f old)
      | inr new ↦
          essential_first R e (es ++ ds) seen f new
          ∙ ap (◌∷◌ e) (
              more (
                All-map (IsKnown seen (e ∷ es)) (IsKnown (fill_id_of R e ∷ seen) es) ds
                  (IsKnown-new e es seen f) h))
          ∙ sym (essential_first R e es seen f new)
    ]
    | inr f ↦
        let rest =
          same
            (All-map (IsKnown seen (e ∷ es)) (IsKnown seen es) ds (IsKnown-other e es seen f) h) in
        elim (Bool-cases (e.event_type == "FUNDING")) [
          | inl funding ↦
              essential_funding R e (es ++ ds) seen f funding
              ∙ ap (◌∷◌ e) rest
              ∙ sym (essential_funding R e es seen f funding)
          | inr other ↦
              essential_other R e (es ++ ds) seen f other
              ∙ rest
              ∙ sym (essential_other R e es seen f other)
        ]
  ]

  essential-redelivered :
      (es ds : List (LedgerEvent R.Float)) (seen : List String)
      → All (IsKnown seen es) ds
      → essential R seen (es ++ ds) ≡ essential R seen es
  essential-redelivered [] ds seen h = All-known ds seen h ∙ unfold essential in refl
  essential-redelivered (e ∷ es) ds seen h =
      skip_step e es ds seen (essential-redelivered es ds seen)
        (essential-redelivered es ds (fill_id_of R e ∷ seen)) h

  -- Fills that are delivered again, in any number and order, with ids that the ledger already
  -- holds, leave the projection as it was, even where their other data differ: positions, cash,
  -- fees, funding and digest.
  pub rebuild-redelivered :
      (es ds : List (LedgerEvent R.Float))
      → All (IsKnown [] es) ds
      → rebuild_state_projection R (es ++ ds) ≡ rebuild_state_projection R es
  rebuild-redelivered es ds h =
      rebuild-essential R (es ++ ds)
      ∙ ap (rebuild_state_projection R) (essential-redelivered es ds [] h)
      ∙ sym (rebuild-essential R es)
