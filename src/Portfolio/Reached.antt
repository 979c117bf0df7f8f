-- ===== src/Portfolio/Reached.antt =====
-- The orders that a delta order plan asks for, from what is held and what is wanted
-- (src/engine/portfolio/delta_order_plan.py).
use mathlib.Core.List.{Memᴰ}
use proofalpha.Prelude.{
  String, true, false, Option, none, some, List, ◌∷◌, [], ◌++◌, ◌==◌, ◌&&◌, ◌||◌, ◌≡◌, ◌↔◌, refl,
  sym, ap, ◌∙◌, arith, map, if◌then◌else◌, contains, contains-append, Bool-cases, inl, inr, eq_iff,
}
use proofalpha.Prelude.Dict.{Dict, lookup, insert, get_or, lookup-insert}
use proofalpha.Python.Runtime.{Runtime}
use proofalpha.Python.Sets.{contains-sorted_set}
use proofalpha.Portfolio.Target.{SymbolTarget}
use proofalpha.Portfolio.Delta.{
  Action, dict_keys, target_notional_by_symbol, by_symbol, delta_at, is_negligible, delta_action,
  delta_actions, symbols_of, build_delta_order_plan, actions_of,
}
use proofalpha.Portfolio.DeltaLaws.{
  has_name, delta_action-has_name, named-Mem, named_append-Mem, delta_actions-Mem,
}

contains-insert :
    {V : Type 0} (s k : String) (v : V) (d : Dict V)
    → contains s (dict_keys (insert k v d)) ≡ (s == k || contains s (dict_keys d))
unfolding contains insert
contains-insert s k v [] = refl
contains-insert s k v ((j, w) ∷ d) =
    ground (arith, eq_iff j k, eq_iff s j, eq_iff s k, contains-insert s k v d)

module _ (R : Runtime) where
  -- The rounded sum of the targets of a symbol, after some others of notional `o`.
  pub total_wanted : String → Option R.Float → List (SymbolTarget R.Float) → Option R.Float
  total_wanted s o [] = o
  total_wanted s o (t ∷ rest) =
      total_wanted s
        (if t.symbol == s
          then some (R.round (R.add (get_or o (R.lit 0 0)) t.target_notional) 8)
          else o)
        rest

  -- What the last target of a symbol says.
  pub last_said :
      (SymbolTarget R.Float → String)
      → String
      → Option String
      → List (SymbolTarget R.Float)
      → Option String
  last_said f s o [] = o
  last_said f s o (t ∷ rest) = last_said f s (if t.symbol == s then some (f t) else o) rest

  abbrev with_target : SymbolTarget R.Float → Dict R.Float → Dict R.Float
  with_target t d =
      insert t.symbol (R.round (R.add (get_or (lookup t.symbol d) (R.lit 0 0)) t.target_notional) 8)
        d

  same_total :
      (s k : String) (d : Dict R.Float) (x : R.Float)
      → (if k == s
          then some (R.round (R.add (get_or (lookup k d) (R.lit 0 0)) x) 8)
          else lookup s d)
        ≡ (if k == s
            then some (R.round (R.add (get_or (lookup s d) (R.lit 0 0)) x) 8)
            else lookup s d)
  same_total s k d x = elim (Bool-cases (k == s)) [
    | inl e ↦ let same : k ≡ s = ground (arith, e, eq_iff k s) in rw same refl
    | inr e ↦ rw e refl
  ]

  lookup-target_notional_by_symbol :
      (s : String) (d : Dict R.Float) (targets : List (SymbolTarget R.Float))
      → lookup s (target_notional_by_symbol R d targets) ≡ total_wanted s (lookup s d) targets
  unfolding target_notional_by_symbol total_wanted
  lookup-target_notional_by_symbol s d [] = refl
  lookup-target_notional_by_symbol s d (t ∷ rest) =
      lookup-target_notional_by_symbol s (with_target t d) rest
      ∙ ap (λ o. total_wanted s o rest)
          (lookup-insert t.symbol s _ d ∙ same_total s t.symbol d t.target_notional)

  lookup-by_symbol :
      (f : SymbolTarget R.Float → String) (s : String) (d : Dict String)
      (targets : List (SymbolTarget R.Float))
      → lookup s (by_symbol R f d targets) ≡ last_said f s (lookup s d) targets
  unfolding by_symbol last_said
  lookup-by_symbol f s d [] = refl
  lookup-by_symbol f s d (t ∷ rest) =
      lookup-by_symbol f s (insert t.symbol (f t) d) rest
      ∙ ap (λ o. last_said f s o rest) (lookup-insert t.symbol s (f t) d)

  abbrev pub targeted : List (SymbolTarget R.Float) → List String
  targeted targets = map (λ (t : SymbolTarget R.Float). t.symbol) targets

  contains-target_notional_by_symbol :
      (s : String) (d : Dict R.Float) (targets : List (SymbolTarget R.Float))
      → contains s (dict_keys (target_notional_by_symbol R d targets))
        ≡ (contains s (dict_keys d) || contains s (targeted targets))
  unfolding target_notional_by_symbol contains
  contains-target_notional_by_symbol s d [] = ground arith
  contains-target_notional_by_symbol s d (t ∷ rest) =
      contains-target_notional_by_symbol s (with_target t d) rest
      ∙ rw
          (contains-insert s t.symbol
            (R.round (R.add (get_or (lookup t.symbol d) (R.lit 0 0)) t.target_notional) 8) d)
          (ground arith)

  module _ (current : Dict R.Float) (targets : List (SymbolTarget R.Float)) where
    abbrev pub held : String → R.Float
    held s = get_or (lookup s current) (R.lit 0 0)

    abbrev pub wanted : String → R.Float
    wanted s = get_or (total_wanted s none targets) (R.lit 0 0)

    abbrev pub change : String → R.Float
    change s = R.round (R.sub (wanted s) (held s)) 8

    -- The order that takes a symbol from what is held to what is wanted.
    pub order_to_target : String → Action R
    order_to_target s = record {
      symbol = s;
      artifact_id = last_said (λ (t : SymbolTarget R.Float). t.artifact_id) s none targets;
      side = if R.lt (R.lit 0 0) (change s) then "BUY" else "SELL";
      current_notional = R.round (held s) 8;
      target_notional = R.round (wanted s) 8;
      delta_notional = change s;
      action =
          if R.eq (held s) (R.lit 0 0) && R.lt (R.lit 0 0) (wanted s)
          then "open"
          else (if R.eq (wanted s) (R.lit 0 0) && R.lt (R.lit 0 0) (held s)
              then "close"
              else (if R.lt (R.lit 0 0) (change s) then "increase" else "reduction"));
      reduce_only = R.lt (change s) (R.lit 0 0);
      rebalance_reason =
          get_or (last_said (λ (t : SymbolTarget R.Float). t.rebalance_reason) s none targets)
            "target_delta";
    }

    abbrev target : Dict R.Float
    target = target_notional_by_symbol R [] targets

    total_of : (s : String) → lookup s target ≡ total_wanted s none targets
    unfolding lookup
    total_of s = lookup-target_notional_by_symbol s [] targets

    delta_at-change : (s : String) → delta_at R current target s ≡ change s
    delta_at-change s = ap (λ o. R.round (R.sub (get_or o (R.lit 0 0)) (held s)) 8) (total_of s)

    delta_action-reaches :
        (s : String) → delta_action R current target targets s ≡ order_to_target s
    unfolding delta_action order_to_target lookup
    delta_action-reaches s =
        rw
          (
            delta_at-change s,
            total_of s,
            lookup-by_symbol (λ (t : SymbolTarget R.Float). t.artifact_id) s [] targets,
            lookup-by_symbol (λ (t : SymbolTarget R.Float). t.rebalance_reason) s [] targets,
          )
          refl

  -- The actions that a delta order plan turns into intents are exactly these: for every symbol that is
  -- held or has a target, where what is wanted (the targets of the symbol added up, rounded at each
  -- step) less what is held, rounded to eight digits, is at least 1e-9 in size, the one order for that
  -- change: BUY if it is above zero and otherwise SELL, reduce-only if it is below zero, named open,
  -- close, increase or reduction by what is held and wanted, for the artifact and the reason that the
  -- last target of the symbol gives.
  pub build_delta_order_plan_iff :
      (plan_id : String) (current : Dict R.Float) (targets : List (SymbolTarget R.Float))
      (fee slippage funding : R.Float) (a : Action R)
      → Memᴰ a
          (actions_of R (build_delta_order_plan R plan_id current targets fee slippage funding))
        ↔ (((contains a.symbol (dict_keys current) || contains a.symbol (targeted targets)) ≡ true)
            × (R.lt (R.abs (change current targets a.symbol)) (R.lit 1 9) ≡ false)
            × (a ≡ order_to_target current targets a.symbol))
  unfolding build_delta_order_plan contains
  build_delta_order_plan_iff plan_id current targets fee slippage funding a =
      let target = target_notional_by_symbol R [] targets in
      let s = a.symbol in
      let kept =
        contains-sorted_set s (dict_keys current ++ dict_keys target)
        ∙ contains-append s (dict_keys current) (dict_keys target)
        ∙ ap (λ b. contains s (dict_keys current) || b)
            (contains-target_notional_by_symbol s [] targets) in
      let l = delta_actions R current target targets (symbols_of R current target) in
      let listed = delta_actions-Mem R current target targets a (symbols_of R current target) in
      let size = ap (is_negligible R) (delta_at-change current targets s) in
      let reached = delta_action-reaches current targets s in
      let grouped = named_append-Mem R a l _ "open" _ (
        named_append-Mem R a l _ "increase" _
          (named_append-Mem R a l _ "reduction" _ (named-Mem R "close" a l))) in
      (
        λ m. let (c, n, q) = listed.0 (grouped.0 m).0 in (sym kept ∙ c, sym size ∙ n, q ∙ reached),
        λ (c, n, q).
            let q2 = q ∙ sym reached in
            grouped.1 (
              listed.1 (kept ∙ c, size ∙ n, q2),
              ap (λ (x : Action R). has_name R x.action) q2
                  ∙ delta_action-has_name R current target targets s,
            ),
      )
