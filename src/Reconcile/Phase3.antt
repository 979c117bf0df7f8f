-- ===== src/Reconcile/Phase3.antt =====
-- src/engine/execution/reconciliation.py: `rebuild_phase3_execution_projection` on the tables that it
-- rewrites.
use proofalpha.Prelude.{
  String, Bool, true, false, none, some, List, ◌==◌, ◌≡◌, refl, ap, ◌∙◌, concat, if◌then◌else◌,
  subst,
}
use proofalpha.Prelude.Int.{pos}
use proofalpha.Prelude.Dict.{get_or}
use proofalpha.Prelude.Rows.{row_of, replace_row, row_of-replace_row}
use proofalpha.Python.Runtime.{Runtime}
use proofalpha.Store.Events.{ExecutionEvent}
use proofalpha.Store.Tables.{ReplayCheckpoint, Projection, RebuildReport}
use proofalpha.Store.Rebuild.{last_id, rebuild_execution_projections}
use proofalpha.Portfolio.OverrideTables.{OverrideDb}
use proofalpha.Reconcile.Ledgers.{Books}
use proofalpha.Reconcile.Snapshots.{rebuild_books}

-- The tables that a reconciliation reads or changes.
pub record ReconcileDb (Float : Type 0) : Type 0 where
  pub overrides : OverrideDb Float
  pub books : Books Float
  pub replay_checkpoints : List ReplayCheckpoint

-- `_projection_digest`, `_phase3_projection_digest`, and `datetime('now')`
pub record Stamps (Float : Type 0) : Type 0 where
  pub projection_digest : Projection Float → String
  pub phase3_projection_digest : Books Float → String
  pub now : String

abbrev pub key_of : ReplayCheckpoint → String
key_of c = c.checkpoint_id

row_of-apart :
    (id : String) (c : ReplayCheckpoint) (rows : List ReplayCheckpoint)
    → (key_of c == id) ≡ false
    → row_of key_of id (replace_row key_of c rows) ≡ row_of key_of id rows
row_of-apart id c rows e = row_of-replace_row key_of id c rows ∙ rw e refl

module _ (R : Runtime) (stamps : Stamps R.Float) where
  -- the checkpoint of the accounting tables
  unfoldable pub phase3_checkpoint : RebuildReport → Books R.Float → ReplayCheckpoint
  phase3_checkpoint base books = record {
    checkpoint_id = concat "phase3:" (R.text_of_int (pos base.last_event_id));
    created_at_utc = stamps.now;
    last_event_id = base.last_event_id;
    projection_digest = stamps.phase3_projection_digest books;
    event_count = base.event_count;
  }

  -- `_rebuild_phase3_once`: the tables, and whether it returned. An exception comes after the commit
  -- of the projections, and leaves the accounting tables as they were.
  unfoldable pub rebuild_phase3_once : ReconcileDb R.Float → ReconcileDb R.Float × Bool
  rebuild_phase3_once db =
      let events = db.overrides.execution_events in
      let base =
        rebuild_execution_projections R stamps.projection_digest stamps.now events
          db.replay_checkpoints in
      elim (rebuild_books R events) [
        | none ↦ (
          record db {
            books = record db.books { projection = base.0 };
            replay_checkpoints = base.1;
          },
          false,
        )
        | some books ↦ (
          record db {
            books = books;
            replay_checkpoints = replace_row key_of (phase3_checkpoint base.2 books) base.1;
          },
          true,
        )
      ]

  -- `rebuild_phase3_execution_projection`, which rebuilds twice to compare the digests
  unfoldable pub rebuild_phase3 : ReconcileDb R.Float → ReconcileDb R.Float × Bool
  rebuild_phase3 db =
      let first = rebuild_phase3_once db in
      let second = rebuild_phase3_once first.0 in if first.1 then second else first

  -- Every checkpoint but the two of the rebuild is kept.
  abbrev pub KeepsOthers :
      List (ExecutionEvent R.Float) → List ReplayCheckpoint → List ReplayCheckpoint → Type 0
  KeepsOthers events old new =
      let last = R.text_of_int (pos (get_or (last_id R events) 0)) in
      (id : String)
      → (concat "replay:" last == id) ≡ false
      → (concat "phase3:" last == id) ≡ false
      → row_of key_of id new ≡ row_of key_of id old

  once_built :
      (db : ReconcileDb R.Float) (books : Books R.Float)
      → rebuild_books R db.overrides.execution_events ≡ some books
      → ((rebuild_phase3_once db).1 ≡ true)
        × ((rebuild_phase3_once db).0.overrides ≡ db.overrides)
        × ((rebuild_phase3_once db).0.books ≡ books)
        × KeepsOthers db.overrides.execution_events db.replay_checkpoints
            (rebuild_phase3_once db).0.replay_checkpoints
  unfolding rebuild_phase3_once rebuild_execution_projections phase3_checkpoint
  once_built db books built =
      rw (rebuild_phase3_once, built)
        (
          refl,
          refl,
          refl,
          λ id a b. row_of-apart id _ _ b ∙ row_of-apart id _ db.replay_checkpoints a,
        )

  -- Two rebuilds of a journal that can be rebuilt.
  pub rebuild_phase3_built :
      (db : ReconcileDb R.Float) (books : Books R.Float)
      → rebuild_books R db.overrides.execution_events ≡ some books
      → ((rebuild_phase3 db).1 ≡ true)
        × ((rebuild_phase3 db).0.overrides ≡ db.overrides)
        × ((rebuild_phase3 db).0.books ≡ books)
        × KeepsOthers db.overrides.execution_events db.replay_checkpoints
            (rebuild_phase3 db).0.replay_checkpoints
  unfolding rebuild_phase3
  rebuild_phase3_built db books built =
      let (returns, same, made, kept) = once_built db books built in
      let first = (rebuild_phase3_once db).0 in
      let built2 =
        ap (λ (x : OverrideDb R.Float). rebuild_books R x.execution_events) same ∙ built in
      let (returns2, same2, made2, kept2) = once_built first books built2 in
      let kept3 =
        subst
          (λ (x : OverrideDb R.Float).
            KeepsOthers x.execution_events first.replay_checkpoints
              (rebuild_phase3_once first).0.replay_checkpoints)
          same kept2 in
      rw returns (returns2, same2 ∙ same, made2, λ id a b. kept3 id a b ∙ kept id a b)
