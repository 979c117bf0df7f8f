-- ===== src/Universe/Tests.antt =====
-- Runs of src/engine/universe, and the theorems about it at concrete inputs.
use proofalpha.Prelude.{
  String, true, false, none, some, List, ◌∷◌, [], ◌≡◌, ◌≢◌, ◌↔◌, ◌==◌, refl, concat, eq_iff,
}
use proofalpha.Prelude.Dict.{Dict, lookup, insert}
use proofalpha.Universe.Manifest.{
  SymbolState, paper_active, quarantined, reduce_only, is_paper_state, UniverseManifest,
  UniverseSymbol, Digest, create, with_state, with_symbols, moved, executor_symbol_allowed,
}
use proofalpha.Universe.Decisions.{
  QuarantineFlags, quarantine_reasons, evaluate_symbol_quarantine, DemotionFlags,
  AdmissionGateInputs,
}
use proofalpha.Universe.History.{Change, add, move, state_after, run, executor_symbol_allowed_iff}
use proofalpha.Universe.Safety.{quarantine_blocks}

-- the names of the symbols, one after the other
abbrev names : Dict UniverseSymbol → String
names [] = ""
names ((k, s) ∷ d) = concat k (concat "," (names d))

abbrev digest : Digest
digest = record { of_nothing = "empty"; of_manifest = λ u a d. concat u (concat a (names d)) }

abbrev changes : List Change
changes = add "BTCUSDT" "RING_0_CORE" ∷ move "BTCUSDT" paper_active "approved" ∷ []

executor_symbol_allowed_iff_example :
    ((executor_symbol_allowed (run digest changes (create digest "u" "ops")) "BTCUSDT").allowed
      ≡ true)
    ↔ ((state : SymbolState) × (state_after "BTCUSDT" changes none ≡ some state)
        × (is_paper_state state ≡ true))
executor_symbol_allowed_iff_example = executor_symbol_allowed_iff digest "u" "ops" "BTCUSDT" changes

abbrev entry : SymbolState → List String → UniverseSymbol
entry state reasons = record {
  symbol = "BTCUSDT";
  state = state;
  ring = "RING_0_CORE";
  reasons = reasons;
}

abbrev manifest : SymbolState → List String → String → UniverseManifest
manifest state reasons digest_of = record {
  universe_id = "u";
  approved_by = "ops";
  symbols = ("BTCUSDT", entry state reasons) ∷ [];
  manifest_hash = digest_of;
}

abbrev before : UniverseManifest
before = manifest paper_active [] "h"

abbrev gap : QuarantineFlags
gap = record { data_gap = true; reconciliation_issue = false; venue_rule_change = false }

abbrev blocked : UniverseManifest
blocked = manifest quarantined ("gap" ∷ []) "uopsBTCUSDT,"

abbrev btc : String
btc = "BTCUSDT"

abbrev eth : String
eth = "ETHUSDT"

different : btc ≢ eth
different = λ h.
    let e : (btc == eth) ≡ true = (eq_iff btc eth).1 h in let f : (btc == eth) ≡ false = refl in cc

quarantine_blocks_example :
    (((executor_symbol_allowed blocked "BTCUSDT").allowed ≡ true)
      ↔ ((true ≡ false) × ((false ≡ false) × (false ≡ false))))
    × ((executor_symbol_allowed blocked "ETHUSDT").allowed
        ≡ (executor_symbol_allowed before "ETHUSDT").allowed)
unfolding with_state with_symbols moved lookup insert evaluate_symbol_quarantine quarantine_reasons
quarantine_blocks_example =
    quarantine_blocks digest before blocked "BTCUSDT" "ETHUSDT" gap "gap" refl different

abbrev shock : DemotionFlags
shock = record {
  data_gap = false;
  liquidity_failure = true;
  reconciliation_issue = false;
  slippage_shock = true;
  funding_shock = false;
  repeated_strategy_failure = false;
}

abbrev demoted : UniverseManifest
demoted = manifest reduce_only ("shock" ∷ []) "uopsBTCUSDT,"

abbrev shallow : AdmissionGateInputs
shallow = record {
  exchange_status_trading = true;
  usdm_linear_perp = true;
  history_1h = true;
  history_15m = true;
  funding_history = true;
  mark_price_history = true;
  open_interest = true;
  book_depth = false;
  spread = true;
  volume = true;
  capacity = true;
  slippage_model_confidence = true;
  funding_stability = true;
  correlation_cluster = true;
  scenario_robustness = true;
  paper_dry_run = true;
}
