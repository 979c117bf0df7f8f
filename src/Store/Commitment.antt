-- ===== src/Store/Commitment.antt =====
-- The last digest of the execution journal stands for all of its rows (src/engine/memory/store.py).
use mathlib.Core.List.{Memᴰ}
use mathlib.Core.List.Memᴰ
use proofalpha.Prelude.{
  String, Option, none, some, if◌then◌else◌, List, ◌∷◌, [], ◌++◌, map, ◌==◌, eq_iff, ◌≡◌, refl, sym,
  ap, ◌∙◌, arith, length, length-append, Bool-cases, inl, inr,
}
use proofalpha.Prelude.Dict.{get_or}
use proofalpha.Prelude.Int.{ℤ, pos}
use proofalpha.Python.Runtime.{
  Runtime, Value, Fields, null, int, float, text, object, end, field, fields,
}
use proofalpha.Store.Events.{
  ExecutionEvent, last_digest, digest_payload, or_none, text_or_null, float_or_null,
}
use proofalpha.Store.Chain.{IsChain, empty, linked, last_digest-append}

get_or-or_none : (s : String) → get_or (or_none s) "" ≡ s
get_or-or_none s = elim (Bool-cases (s == "")) [
  | inl e ↦ let h : s ≡ "" = (eq_iff s "").0 e in rw (or_none, e, h) refl
  | inr e ↦ rw (or_none, e) refl
]

-- the text of the first field, and the fields after it
abbrev first_text : {Float : Type 0} → Value Float → String
first_text (object (field k (text s) f)) = s
first_text _ = ""

-- What a row says: its columns, where the metadata are their JSON text.
pub record Columns (Float : Type 0) : Type 0 where
  pub ts_exchange : String
  pub ts_gateway : String
  pub ts_engine : String
  pub source : String
  pub symbol : Option String
  pub side : Option String
  pub order_id_client : Option String
  pub order_id_exchange : Option String
  pub parent_intent_id : Option String
  pub event_type : String
  pub qty : Option Float
  pub price : Option Float
  pub status : Option String
  pub reason_code : Option String
  pub metadata_json : String
  pub schema_version : ℤ

module _ {Float : Type 0} where
  -- the value of a field, and what such a value stands for
  abbrev value_at : String → Fields Float → Value Float
  value_at k end = null
  value_at k (field j v f) = if j == k then v else value_at k f

  abbrev fields_of : Value Float → Fields Float
  fields_of (object f) = f
  fields_of _ = end

  abbrev given_text : Value Float → Option String
  given_text (text s) = some s
  given_text _ = none

  abbrev given_float : Value Float → Option Float
  given_float (float x) = some x
  given_float _ = none

  abbrev given_int : Value Float → ℤ
  given_int (int n) = n
  given_int _ = pos 0

  abbrev columns_of_value : Value Float → Columns Float
  columns_of_value v =
      let said = λ (k : String). get_or (given_text (value_at k (fields_of v))) "" in
      let told = λ (k : String). given_text (value_at k (fields_of v)) in
      let number = λ (k : String). given_float (value_at k (fields_of v)) in
      record {
        ts_exchange = said "ts_exchange";
        ts_gateway = said "ts_gateway";
        ts_engine = said "ts_engine";
        source = said "source";
        symbol = told "symbol";
        side = told "side";
        order_id_client = told "order_id_client";
        order_id_exchange = told "order_id_exchange";
        parent_intent_id = told "parent_intent_id";
        event_type = said "event_type";
        qty = number "qty";
        price = number "price";
        status = told "status";
        reason_code = told "reason_code";
        metadata_json = said "metadata_json";
        schema_version = given_int (value_at "schema_version" (fields_of v));
      }

given_text-text_or_null :
    (Float : Type 0) (o : Option String) → given_text (text_or_null {Float = Float} o) ≡ o
given_text-text_or_null Float none = refl
given_text-text_or_null Float (some s) = refl

given_float-float_or_null : {Float : Type 0} (o : Option Float) → given_float (float_or_null o) ≡ o
given_float-float_or_null none = refl
given_float-float_or_null (some x) = refl

map-snoc :
    {A B : Type 0} (f : A → B) (l : List A) (a : A) → map f (l ++ (a ∷ [])) ≡ map f l ++ (f a ∷ [])
map-snoc f [] a = refl
map-snoc f (b ∷ l) a = ap (λ m. f b ∷ m) (map-snoc f l a)

module _ (R : Runtime) where
  -- The data whose digest a row holds.
  abbrev pub digested : ExecutionEvent R.Float → Value R.Float
  digested e = digest_payload R (get_or e.previous_digest "") e.arguments

  -- The columns of a row.
  pub columns : ExecutionEvent R.Float → Columns R.Float
  columns e = record {
    ts_exchange = e.arguments.ts_exchange;
    ts_gateway = e.arguments.ts_gateway;
    ts_engine = e.arguments.ts_engine;
    source = e.arguments.source;
    symbol = e.arguments.symbol;
    side = e.arguments.side;
    order_id_client = e.arguments.order_id_client;
    order_id_exchange = e.arguments.order_id_exchange;
    parent_intent_id = e.arguments.parent_intent_id;
    event_type = e.arguments.event_type;
    qty = e.arguments.qty;
    price = e.arguments.price;
    status = e.arguments.status;
    reason_code = e.arguments.reason_code;
    metadata_json = R.json_text (fields e.arguments.metadata);
    schema_version = e.arguments.schema_version;
  }

  -- No row of the one journal and row of the other have one digest for different data.
  abbrev pub NoCollision : List (ExecutionEvent R.Float) → List (ExecutionEvent R.Float) → Type 0
  NoCollision l m =
      (d e : ExecutionEvent R.Float)
      → Memᴰ d l
      → Memᴰ e m
      → R.stable_hash (digested d) ≡ R.stable_hash (digested e)
      → digested d ≡ digested e

  -- The digest's data hold every column.
  columns_of_value-columns :
      (previous : String) (e : ExecutionEvent R.Float)
      → columns_of_value (digest_payload R previous e.arguments) ≡ columns e
  unfolding digest_payload columns
  columns_of_value-columns previous e =
      simp (given_text-text_or_null R.Float, given_float-float_or_null)

  digest_parts :
      (p q : String) (d e : ExecutionEvent R.Float)
      → digest_payload R p d.arguments ≡ digest_payload R q e.arguments
      → (p ≡ q) × (columns d ≡ columns e)
  unfolding digest_payload
  digest_parts p q d e h = (
    ap first_text h,
    sym (columns_of_value-columns p d) ∙ ap columns_of_value h ∙ columns_of_value-columns q e,
  )

  digested_linked :
      (events : List (ExecutionEvent R.Float)) (e : ExecutionEvent R.Float)
      → e.previous_digest ≡ or_none (last_digest events)
      → digested e ≡ digest_payload R (last_digest events) e.arguments
  digested_linked events e p =
      ap (λ s. digest_payload R s e.arguments)
        (ap (λ o. get_or o "") p ∙ get_or-or_none (last_digest events))

  -- Two linked journals of one length whose last digests agree have the same sixteen columns in every
  -- row, with the metadata compared as JSON text, unless two of their rows collide.
  pub journal_commits :
      (l m : List (ExecutionEvent R.Float))
      → IsChain R l
      → IsChain R m
      → NoCollision l m
      → length l ≡ length m
      → last_digest l ≡ last_digest m
      → map columns l ≡ map columns m
  journal_commits _ _ empty empty f n h = refl
  journal_commits _ _ empty (linked m e c d p g i t) f n h =
      absurd (omega (arith, n, length-append m (e ∷ [])))
  journal_commits _ _ (linked l e c d p g i t) empty f n h =
      absurd (omega (arith, n, length-append l (e ∷ [])))
  journal_commits _ _ (linked l e c d p g i t) (linked m e' c' d' p' g' i' t') f n h =
      let same : e.event_digest ≡ e'.event_digest =
        sym (last_digest-append l e) ∙ h ∙ last_digest-append m e' in
      let q = digested_linked l e p in
      let q' = digested_linked m e' p' in
      let alike =
        f e e' (Memᴰ.append_right l (Memᴰ.head refl)) (Memᴰ.append_right m (Memᴰ.head refl))
          (ap R.stable_hash q ∙ sym d ∙ same ∙ d' ∙ ap R.stable_hash (sym q')) in
      let parts = digest_parts (last_digest l) (last_digest m) e e' (sym q ∙ alike ∙ q') in
      let n' : length l ≡ length m =
        omega (arith, n, length-append l (e ∷ []), length-append m (e' ∷ [])) in
      let before =
        journal_commits l m c c'
          (λ a b i j. f a b (Memᴰ.append_left (e ∷ []) i) (Memᴰ.append_left (e' ∷ []) j)) n'
          parts.0 in
      map-snoc columns l e
      ∙ ap (λ x. x ++ (columns e ∷ [])) before
      ∙ ap (λ y. map columns m ++ (y ∷ [])) parts.1
      ∙ sym (map-snoc columns m e')
