-- ===== src/Universe/Manifest.antt =====
-- src/engine/universe/manifest.py and filters.py: the manifest of symbols, whose calls return a new
-- manifest, and what the executor may trade.
use proofalpha.Prelude.{
  String, Bool, true, false, not, Option, none, some, List, ◌∷◌, [], ◌++◌, if◌then◌else◌,
}
use proofalpha.Prelude.Dict.{Dict, lookup, insert}

pub data SymbolState : Type 0 where
  excluded research_only shadow paper_allowed paper_active reduce_only quarantined retired :
      SymbolState

-- `PAPER_STATES`
abbrev pub is_paper_state : SymbolState → Bool
is_paper_state paper_allowed = true
is_paper_state paper_active = true
is_paper_state reduce_only = true
is_paper_state _ = false

pub record UniverseSymbol : Type 0 where
  pub symbol : String
  pub state : SymbolState
  pub ring : String
  pub reasons : List String

pub record UniverseManifest : Type 0 where
  pub universe_id : String
  pub approved_by : String
  pub symbols : Dict UniverseSymbol
  pub manifest_hash : String

-- a manifest, or the KeyError of a symbol that it does not have
pub data Reply : Type 0 where
  updated : UniverseManifest → Reply
  key_error : String → Reply

-- `_stable_hash` of an empty dict, and of the identifier, the approver and the symbols of a manifest
pub record Digest : Type 0 where
  pub of_nothing : String
  pub of_manifest : String → String → Dict UniverseSymbol → String

-- `UniverseManifest.paper_allowed`, of the symbol's entry
unfoldable pub is_allowed_entry : Option UniverseSymbol → Bool
is_allowed_entry none = false
is_allowed_entry (some s) = is_paper_state s.state

unfoldable pub is_paper_allowed : UniverseManifest → String → Bool
is_paper_allowed m symbol = is_allowed_entry (lookup symbol m.symbols)

module _ (D : Digest) where
  unfoldable pub create : String → String → UniverseManifest
  create universe_id approved_by = record {
    universe_id = universe_id;
    approved_by = approved_by;
    symbols = [];
    manifest_hash = D.of_nothing;
  }

  -- `_with_hash(replace(self, symbols=symbols))`
  unfoldable pub with_symbols : UniverseManifest → Dict UniverseSymbol → UniverseManifest
  with_symbols m symbols = record m {
    symbols = symbols;
    manifest_hash = D.of_manifest m.universe_id m.approved_by symbols;
  }

  unfoldable pub add_symbol : UniverseManifest → String → String → UniverseManifest
  add_symbol m symbol ring = with_symbols m (
      insert symbol
        (record {
          symbol = symbol;
          state = research_only;
          ring = ring;
          reasons = "new_symbol" ∷ [];
        })
        m.symbols)

  unfoldable pub moved : SymbolState → String → UniverseSymbol → UniverseSymbol
  moved state reason current = record current {
    state = state;
    reasons = current.reasons ++ (reason ∷ []);
  }

  unfoldable pub with_state : UniverseManifest → String → SymbolState → String → Reply
  with_state m symbol state reason = elim (lookup symbol m.symbols) [
    | none ↦ key_error symbol
    | some current ↦ updated (with_symbols m (insert symbol (moved state reason current) m.symbols))
  ]

pub record SymbolFilterDecision : Type 0 where
  pub allowed : Bool
  pub reasons : List String

-- src/engine/universe/filters.py
unfoldable pub executor_symbol_allowed : UniverseManifest → String → SymbolFilterDecision
executor_symbol_allowed m symbol = elim (lookup symbol m.symbols) [
  | none ↦ record { allowed = false; reasons = "symbol_not_in_manifest" ∷ [] }
  | some s ↦
      if not (is_paper_allowed m symbol)
      then record { allowed = false; reasons = "symbol_not_paper_allowed" ∷ [] }
      else record { allowed = true; reasons = [] }
]
