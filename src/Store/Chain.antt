-- ===== src/Store/Chain.antt =====
-- The chain of digests of the execution journal (src/engine/memory/store.py).
use mathlib.Core.List.{append_assoc, append-nil}
use proofalpha.Prelude.{
  suc, true, map, sym, ap, ◌∙◌, if◌then◌else◌, List, ◌∷◌, [], ◌++◌, concat, ◌≡◌, refl, arith,
  length, length-append, contains, Bool-cases, inl, inr,
}
use proofalpha.Python.Runtime.{Runtime}
use proofalpha.Store.Events.{
  EventArguments, ExecutionEvent, v3_execution_event_types, last_digest, next_event_id,
  digest_payload, event_row, append_execution_event, append_all, or_none,
}

module _ {Float : Type 0} where
  pub last_digest-append :
      (events : List (ExecutionEvent Float)) (e : ExecutionEvent Float)
      → last_digest (events ++ (e ∷ [])) ≡ e.event_digest
  unfolding last_digest
  last_digest-append [] e = refl
  last_digest-append (d ∷ []) e = refl
  last_digest-append (d ∷ next ∷ rest) e = last_digest-append (next ∷ rest) e

  next_event_id-append :
      (events : List (ExecutionEvent Float)) (e : ExecutionEvent Float)
      → next_event_id (events ++ (e ∷ [])) ≡ suc e.event_id
  unfolding next_event_id
  next_event_id-append [] e = refl
  next_event_id-append (d ∷ []) e = refl
  next_event_id-append (d ∷ next ∷ rest) e = next_event_id-append (next ∷ rest) e

module _ (R : Runtime) where
  -- A journal in which each row is linked to the rows before it: it holds the digest of its own
  -- columns with the digest of the row before it, which it names, and the digest of both; its type is one of the table's, and its identifier
  -- is its place.
  pub data IsChain : List (ExecutionEvent R.Float) → Type 0 where
    empty : IsChain []
    linked :
        (events : List (ExecutionEvent R.Float)) (e : ExecutionEvent R.Float)
        → IsChain events
        → (e.event_digest ≡ R.stable_hash (digest_payload R (last_digest events) e.arguments))
        → (e.previous_digest ≡ or_none (last_digest events))
        → (e.segment_digest ≡ R.sha256 (concat (last_digest events) (concat ":" e.event_digest)))
        → (e.event_id ≡ suc (length events))
        → (contains e.arguments.event_type v3_execution_event_types ≡ true)
        → IsChain (events ++ (e ∷ []))

  next_event_id-IsChain :
      (events : List (ExecutionEvent R.Float))
      → IsChain events
      → next_event_id events ≡ suc (length events)
  unfolding next_event_id
  next_event_id-IsChain _ empty = refl
  next_event_id-IsChain _ (linked events e c d p g i t) =
      omega (arith, next_event_id-append events e, length-append events (e ∷ []), i)

  pub append-IsChain :
      (a : EventArguments R.Float) (events : List (ExecutionEvent R.Float))
      → IsChain events
      → IsChain (append_execution_event R a events).0
  unfolding append_execution_event event_row
  append-IsChain a events c = elim (Bool-cases (contains a.event_type v3_execution_event_types)) [
    | inl known ↦ rw known (
        linked events (event_row R events a) c refl refl refl (next_event_id-IsChain events c)
          known)
    | inr other ↦ rw other c
  ]

  append_all-linked :
      (calls : List (EventArguments R.Float)) (events : List (ExecutionEvent R.Float))
      → IsChain events
      → IsChain (append_all R calls events)
  unfolding append_all
  append_all-linked [] events c = c
  append_all-linked (a ∷ calls) events c =
      append_all-linked calls (append_execution_event R a events).0 (append-IsChain a events c)

  -- The calls that the table accepts.
  pub accepted : List (EventArguments R.Float) → List (EventArguments R.Float)
  accepted [] = []
  accepted (a ∷ calls) =
      let rest = accepted calls in
      if contains a.event_type v3_execution_event_types then a ∷ rest else rest

  -- the arguments of the rows
  abbrev pub arguments_of : List (ExecutionEvent R.Float) → List (EventArguments R.Float)
  arguments_of rows = map (λ (e : ExecutionEvent R.Float). e.arguments) rows

  append_all-accepted :
      (calls : List (EventArguments R.Float)) (events : List (ExecutionEvent R.Float))
      → (rows : List (ExecutionEvent R.Float)) × (append_all R calls events ≡ events ++ rows)
        × (arguments_of rows ≡ accepted calls)
  unfolding append_all append_execution_event event_row accepted
  append_all-accepted [] events = ([], sym (append-nil events), refl)
  append_all-accepted (a ∷ calls) events =
      elim (Bool-cases (contains a.event_type v3_execution_event_types)) [
        | inl known ↦
            let e = event_row R events a in
            let (rows, same, said) = append_all-accepted calls (events ++ (e ∷ [])) in
            rw known (e ∷ rows, same ∙ append_assoc events (e ∷ []) rows, ap (λ l. a ∷ l) said)
        | inr other ↦ rw other (append_all-accepted calls events)
      ]

  -- Whatever is appended, in whatever order, the rows that the journal had stay as they are, and after
  -- them stands one row for each call whose type the table allows, with that call's data, in the order
  -- of the calls: a call with another type adds nothing. The journal also stays linked: every row
  -- holds the digest of its columns and of the digest before it, that digest, the digest of both, its
  -- place as its identifier, and a type that the table allows.
  pub append_all-IsChain :
      (calls : List (EventArguments R.Float)) (events : List (ExecutionEvent R.Float))
      → IsChain events
      → IsChain (append_all R calls events)
        × ((rows : List (ExecutionEvent R.Float)) × (append_all R calls events ≡ events ++ rows)
            × (arguments_of rows ≡ accepted calls))
  append_all-IsChain calls events c =
      (append_all-linked calls events c, append_all-accepted calls events)
