-- ===== src/Universe/Decisions.antt =====
-- src/engine/universe/admission.py, demotion.py and quarantine.py: the decisions on a symbol.
use proofalpha.Prelude.{String, Bool, not, List, ◌∷◌, [], ◌++◌, is_empty, when, if◌then◌else◌}
use proofalpha.Universe.Manifest.{SymbolState, paper_active, reduce_only, quarantined}

pub record AdmissionGateInputs : Type 0 where
  pub exchange_status_trading : Bool
  pub usdm_linear_perp : Bool
  pub history_1h : Bool
  pub history_15m : Bool
  pub funding_history : Bool
  pub mark_price_history : Bool
  pub open_interest : Bool
  pub book_depth : Bool
  pub spread : Bool
  pub volume : Bool
  pub capacity : Bool
  pub slippage_model_confidence : Bool
  pub funding_stability : Bool
  pub correlation_cluster : Bool
  pub scenario_robustness : Bool
  pub paper_dry_run : Bool

pub record AdmissionDecision : Type 0 where
  pub paper_eligible : Bool
  pub rejections : List String

-- `inputs.__dict__.items()`
unfoldable pub gates : AdmissionGateInputs → List (String × Bool)
gates i =
    ("exchange_status_trading", i.exchange_status_trading)
    ∷ ("usdm_linear_perp", i.usdm_linear_perp)
    ∷ ("history_1h", i.history_1h)
    ∷ ("history_15m", i.history_15m)
    ∷ ("funding_history", i.funding_history)
    ∷ ("mark_price_history", i.mark_price_history)
    ∷ ("open_interest", i.open_interest)
    ∷ ("book_depth", i.book_depth)
    ∷ ("spread", i.spread)
    ∷ ("volume", i.volume)
    ∷ ("capacity", i.capacity)
    ∷ ("slippage_model_confidence", i.slippage_model_confidence)
    ∷ ("funding_stability", i.funding_stability)
    ∷ ("correlation_cluster", i.correlation_cluster)
    ∷ ("scenario_robustness", i.scenario_robustness)
    ∷ ("paper_dry_run", i.paper_dry_run)
    ∷ []

unfoldable pub unmet : List (String × Bool) → List String
unmet [] = []
unmet ((name, passed) ∷ rest) = when (not passed) name ++ unmet rest

unfoldable pub evaluate_symbol_admission : AdmissionGateInputs → AdmissionDecision
evaluate_symbol_admission i = record {
  paper_eligible = is_empty (unmet (gates i));
  rejections = unmet (gates i);
}

-- `SymbolDemotionDecision` and `SymbolQuarantineDecision` have the same two fields.
pub record SymbolDecision : Type 0 where
  pub target_state : SymbolState
  pub reasons : List String

pub record DemotionFlags : Type 0 where
  pub data_gap : Bool
  pub liquidity_failure : Bool
  pub reconciliation_issue : Bool
  pub slippage_shock : Bool
  pub funding_shock : Bool
  pub repeated_strategy_failure : Bool

unfoldable pub demotion_reasons : DemotionFlags → List String
demotion_reasons f =
    when f.data_gap "data_gap"
    ++ (when f.liquidity_failure "liquidity_failure"
        ++ (when f.reconciliation_issue "reconciliation_issue"
            ++ (when f.slippage_shock "slippage_shock"
                ++ (when f.funding_shock "funding_shock"
                    ++ when f.repeated_strategy_failure "repeated_strategy_failure"))))

unfoldable pub evaluate_symbol_demotion : DemotionFlags → SymbolDecision
evaluate_symbol_demotion f = record {
  target_state = if is_empty (demotion_reasons f) then paper_active else reduce_only;
  reasons = demotion_reasons f;
}

pub record QuarantineFlags : Type 0 where
  pub data_gap : Bool
  pub reconciliation_issue : Bool
  pub venue_rule_change : Bool

unfoldable pub quarantine_reasons : QuarantineFlags → List String
quarantine_reasons f =
    when f.data_gap "data_gap"
    ++ (when f.reconciliation_issue "reconciliation_issue"
        ++ when f.venue_rule_change "venue_rule_change")

unfoldable pub evaluate_symbol_quarantine : QuarantineFlags → SymbolDecision
evaluate_symbol_quarantine f = record {
  target_state = if is_empty (quarantine_reasons f) then paper_active else quarantined;
  reasons = quarantine_reasons f;
}
