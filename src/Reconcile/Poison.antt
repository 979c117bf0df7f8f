-- ===== src/Reconcile/Poison.antt =====
-- A journal that cannot be rebuilt (src/engine/execution/reconciliation.py).
use mathlib.Core.List.{Memᴰ}
use proofalpha.Prelude.{
  String, Bool, true, false, none, some, List, ◌∷◌, [], ◌++◌, ◌==◌, ◌||◌, eq_iff, eq_refl, ◌≡◌,
  refl, sym, subst, ap, ◌∙◌, arith, contains, Bool-cases, Option-cases, inl, inr,
}
use proofalpha.Prelude.Rows.{has_key, has_key-append}
use proofalpha.Python.Runtime.{Runtime, Fields, Items, item, nothing}
use proofalpha.Store.Events.{ExecutionEvent}
use proofalpha.Store.Tables.{fill_event_types}
use proofalpha.Reconcile.Ledgers.{PositionSnapshot, Books}
use proofalpha.Reconcile.Snapshots.{
  listed_symbol, fields_of, snapshot_id, position_snapshot, Tables, upsert_position,
  upsert_positions, listed_positions, book_account, is_account_event, book_event, book_events,
  rebuild_books,
}

module _ (R : Runtime) where
  -- The list has an entry for the symbol.
  abbrev pub lists : String → Items R.Float → Bool
  lists s nothing = false
  lists s (item v rest) =
      elim (listed_symbol R v) [ none ↦ false | some k ↦ k == s ] || lists s rest

  -- The list has two entries for one symbol.
  abbrev pub lists_twice : Items R.Float → Bool
  lists_twice nothing = false
  lists_twice (item v rest) =
      elim (listed_symbol R v) [ none ↦ false | some k ↦ lists k rest ] || lists_twice rest

  abbrev has_snapshot : ExecutionEvent R.Float → String → Tables R → Bool
  has_snapshot e s t =
      has_key (λ (p : PositionSnapshot R.Float). p.position_snapshot_id) (snapshot_id R e s) t.0

  -- The snapshots with one more.
  abbrev entered :
      ExecutionEvent R.Float → String → Fields R.Float → Tables R → List (PositionSnapshot R.Float)
  entered e k f t = t.0 ++ (position_snapshot R e k f ∷ [])

  snapshot_kept :
      (e : ExecutionEvent R.Float) (k s : String) (f : Fields R.Float) (t : Tables R)
      → has_snapshot e s t ≡ true
      → has_key
          (λ (p : PositionSnapshot R.Float). p.position_snapshot_id)
          (snapshot_id R e s)
          (entered e k f t)
        ≡ true
  unfolding position_snapshot
  snapshot_kept e k s f t h =
      has_key-append (λ (p : PositionSnapshot R.Float). p.position_snapshot_id) _ t.0
        (position_snapshot R e k f)
      ∙ rw h refl

  snapshot_entered :
      (e : ExecutionEvent R.Float) (k : String) (f : Fields R.Float) (t : Tables R)
      → has_key
          (λ (p : PositionSnapshot R.Float). p.position_snapshot_id)
          (snapshot_id R e k)
          (entered e k f t)
        ≡ true
  unfolding position_snapshot
  snapshot_entered e k f t =
      has_key-append (λ (p : PositionSnapshot R.Float). p.position_snapshot_id) _ t.0
        (position_snapshot R e k f)
      ∙ ground (arith, eq_refl (snapshot_id R e k))

  -- A symbol that has its snapshot and is listed raises.
  raises_again :
      (e : ExecutionEvent R.Float) (s : String) (l : Items R.Float) (t : Tables R)
      → has_snapshot e s t ≡ true
      → lists s l ≡ true
      → upsert_positions R e l t ≡ none
  unfolding upsert_positions upsert_position
  raises_again e s nothing t h m = cc
  raises_again e s (item v rest) t h m = elim (Option-cases (listed_symbol R v)) [
    | inl skip ↦ rw (upsert_positions, skip) (raises_again e s rest t h (rw skip at m))
    | inr (k, one) ↦ elim (Bool-cases (has_snapshot e k t)) [
      | inl known ↦ rw (upsert_positions, one, known) refl
      | inr new ↦
          let further : lists s rest ≡ true = elim (Bool-cases (k == s)) [
            | inl here ↦
                let same : k ≡ s = (eq_iff k s).0 here in
                let c : true ≡ false = sym h ∙ ap (λ x. has_snapshot e x t) (sym same) ∙ new in cc
            | inr other ↦ rw (one, other) at m
          ] in
          rw (upsert_positions, one, new)
            (raises_again e s rest _ (snapshot_kept e k s (fields_of R v) t h) further)
    ]
  ]

  -- A symbol that is listed twice raises.
  twice_raises :
      (e : ExecutionEvent R.Float) (l : Items R.Float) (t : Tables R)
      → lists_twice l ≡ true
      → upsert_positions R e l t ≡ none
  unfolding upsert_positions upsert_position
  twice_raises e nothing t m = cc
  twice_raises e (item v rest) t m = elim (Option-cases (listed_symbol R v)) [
    | inl skip ↦ rw (upsert_positions, skip) (twice_raises e rest t (rw skip at m))
    | inr (k, one) ↦ elim (Bool-cases (has_snapshot e k t)) [
      | inl known ↦ rw (upsert_positions, one, known) refl
      | inr new ↦ elim (Bool-cases (lists k rest)) [
        | inl again ↦
            rw (upsert_positions, one, new)
              (raises_again e k rest _ (snapshot_entered e k (fields_of R v) t) again)
        | inr once ↦ rw (upsert_positions, one, new) (twice_raises e rest _ (rw (one, once) at m))
      ]
    ]
  ]

  not_fill :
      (e : ExecutionEvent R.Float)
      → is_account_event R e ≡ true
      → contains e.arguments.event_type fill_event_types ≡ false
  unfolding contains
  not_fill e h = elim (Bool-cases (e.arguments.event_type == "POSITION_RECONCILE")) [
    | inl a ↦
        let same : e.arguments.event_type ≡ "POSITION_RECONCILE" = (eq_iff _ _).0 a in rw same refl
    | inr a ↦
        let same : e.arguments.event_type ≡ "ACCOUNT_SNAPSHOT" = (eq_iff _ _).0 (rw a at h) in
        rw same refl
  ]

  event_raises :
      (e : ExecutionEvent R.Float) (b : Books R.Float)
      → is_account_event R e ≡ true
      → lists_twice (listed_positions R e) ≡ true
      → book_event R e b ≡ none
  unfolding book_event book_account
  event_raises e b a d =
      rw
        (
          not_fill e a,
          a,
          book_account,
          twice_raises e (listed_positions R e) (b.position_snapshots, b.projection.positions) d,
        )
        refl

  poisoned_books :
      (events : List (ExecutionEvent R.Float)) (b : Books R.Float) (e : ExecutionEvent R.Float)
      → Memᴰ e events
      → is_account_event R e ≡ true
      → lists_twice (listed_positions R e) ≡ true
      → book_events R events b ≡ none
  unfolding book_events
  poisoned_books [] b e i a d = elim i [ ]
  poisoned_books (e' ∷ rest) b e (Memᴰ.head same) a d =
      let stop =
        event_raises e' b (subst (λ x. is_account_event R x ≡ true) same a)
          (subst (λ x. lists_twice (listed_positions R x) ≡ true) same d) in
      rw (book_events, stop) refl
  poisoned_books (e' ∷ rest) b e (Memᴰ.tail i) a d = elim (Option-cases (book_event R e' b)) [
    | inl stop ↦ rw (book_events, stop) refl
    | inr (b', on) ↦ rw (book_events, on) (poisoned_books rest b' e i a d)
  ]

  -- A journal that holds an account snapshot or a position reconciliation with two entries for one
  -- symbol cannot be rebuilt: the second entry raises IntegrityError. Whatever else is in the journal,
  -- before or after, does not help.
  pub poisoned_journal :
      (events : List (ExecutionEvent R.Float)) (e : ExecutionEvent R.Float)
      → Memᴰ e events
      → is_account_event R e ≡ true
      → lists_twice (listed_positions R e) ≡ true
      → rebuild_books R events ≡ none
  unfolding rebuild_books
  poisoned_journal events e i a d = poisoned_books events _ e i a d
