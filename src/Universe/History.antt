-- ===== src/Universe/History.antt =====
-- The manifest as a table of states: what the executor may trade after any calls
-- (src/engine/universe/manifest.py, filters.py).
use mathlib.Core.Option
use proofalpha.Prelude.{
  String, true, Option, none, some, List, ◌∷◌, [], ◌==◌, ◌≡◌, ◌↔◌, refl, sym, ap, ◌∙◌,
  if◌then◌else◌, Option-cases, Bool-cases, inl, inr, eq_iff, subst,
}
use proofalpha.Prelude.Dict.{lookup, lookup-insert}
use proofalpha.Universe.Manifest.{
  SymbolState, research_only, is_paper_state, UniverseSymbol, UniverseManifest, Reply, updated,
  key_error, Digest, is_allowed_entry, is_paper_allowed, create, with_symbols, add_symbol, moved,
  with_state, executor_symbol_allowed,
}

-- the calls that make a new manifest
pub data Change : Type 0 where
  add : String → String → Change
  move : String → SymbolState → String → Change

-- What the change makes of the state of a symbol, where `none` is a symbol that is not in the manifest.
abbrev pub next_state : String → Change → Option SymbolState → Option SymbolState
next_state symbol (add s ring) o = if s == symbol then some research_only else o
next_state symbol (move s state reason) o = if s == symbol then Option.map (λ old. state) o else o

abbrev pub state_after : String → List Change → Option SymbolState → Option SymbolState
state_after symbol [] o = o
state_after symbol (c ∷ cs) o = state_after symbol cs (next_state symbol c o)

state_of : String → UniverseManifest → Option SymbolState
state_of symbol m = Option.map (λ (s : UniverseSymbol). s.state) (lookup symbol m.symbols)

-- a KeyError leaves the caller with the manifest that it has
abbrev pub kept_or : UniverseManifest → Reply → UniverseManifest
kept_or m (updated n) = n
kept_or m (key_error s) = m

module _ (D : Digest) where
  unfoldable pub exec : Change → UniverseManifest → UniverseManifest
  exec (add symbol ring) m = add_symbol D m symbol ring
  exec (move symbol state reason) m = kept_or m (with_state D m symbol state reason)

  unfoldable pub run : List Change → UniverseManifest → UniverseManifest
  run [] m = m
  run (c ∷ cs) m = run cs (exec c m)

  pub lookup-with_state :
      (m : UniverseManifest) (s j : String) (state : SymbolState) (reason : String)
      → lookup j (kept_or m (with_state D m s state reason)).symbols ≡ (
          if s == j
          then Option.map (moved D state reason) (lookup j m.symbols)
          else lookup j m.symbols)
  unfolding with_symbols with_state lookup
  lookup-with_state m s j state reason = elim (Option-cases (lookup s m.symbols)) [
    | inl missing ↦ elim (Bool-cases (s == j)) [
      | inl e ↦
          let here : lookup j m.symbols ≡ none =
            subst (λ k. lookup k m.symbols ≡ none) ((eq_iff s j).0 e) missing in
          rw (with_state, missing, e, here) refl
      | inr e ↦ rw (with_state, missing, e) refl
    ]
    | inr (current, found) ↦ elim (Bool-cases (s == j)) [
      | inl e ↦
          let here : lookup j m.symbols ≡ some current =
            subst (λ k. lookup k m.symbols ≡ some current) ((eq_iff s j).0 e) found in
          rw (with_state, found, lookup-insert, e, here) refl
      | inr e ↦ rw (with_state, found, lookup-insert, e) refl
    ]
  ]

  map-moved :
      (state : SymbolState) (reason : String) (o : Option UniverseSymbol)
      → Option.map (λ (s : UniverseSymbol). s.state) (Option.map (moved D state reason) o)
        ≡ Option.map (λ old. state) (Option.map (λ (s : UniverseSymbol). s.state) o)
  unfolding moved
  map-moved state reason none = refl
  map-moved state reason (some s) = refl

  state_of-exec :
      (symbol : String) (c : Change) (m : UniverseManifest)
      → state_of symbol (exec c m) ≡ next_state symbol c (state_of symbol m)
  unfolding exec state_of add_symbol with_symbols
  state_of-exec symbol (add s ring) m = elim (Bool-cases (s == symbol)) [
    | inl e ↦ rw (lookup-insert, e) refl
    | inr e ↦ rw (lookup-insert, e) refl
  ]
  state_of-exec symbol (move s state reason) m = elim (Bool-cases (s == symbol)) [
    | inl e ↦ rw (lookup-with_state, e) (map-moved state reason (lookup symbol m.symbols))
    | inr e ↦ rw (lookup-with_state, e) refl
  ]

  state_of-run :
      (symbol : String) (cs : List Change) (m : UniverseManifest)
      → state_of symbol (run cs m) ≡ state_after symbol cs (state_of symbol m)
  unfolding run
  state_of-run symbol [] m = refl
  state_of-run symbol (c ∷ cs) m =
      state_of-run symbol cs (exec c m) ∙ ap (state_after symbol cs) (state_of-exec symbol c m)

  allowed_entry_iff :
      (o : Option UniverseSymbol)
      → (is_allowed_entry o ≡ true) ↔ (
          (state : SymbolState) × (Option.map (λ (s : UniverseSymbol). s.state) o ≡ some state)
          × (is_paper_state state ≡ true))
  unfolding is_allowed_entry
  allowed_entry_iff none = (λ h. cc, λ (s, e, p). cc)
  allowed_entry_iff (some s) = (
    λ h. (s.state, refl, h),
    λ (t, e, p). let same : t ≡ s.state = cc in subst (λ q. is_paper_state q ≡ true) same p,
  )

  paper_allowed_by_entry :
      (m : UniverseManifest) (symbol : String) (s : UniverseSymbol)
      → lookup symbol m.symbols ≡ some s
      → is_paper_allowed m symbol ≡ is_paper_state s.state
  unfolding is_paper_allowed is_allowed_entry
  paper_allowed_by_entry m symbol s e = rw (is_paper_allowed, e) refl

  pub allowed_by_entry :
      (m : UniverseManifest) (symbol : String)
      → (executor_symbol_allowed m symbol).allowed ≡ is_allowed_entry (lookup symbol m.symbols)
  unfolding is_allowed_entry executor_symbol_allowed
  allowed_by_entry m symbol = elim (Option-cases (lookup symbol m.symbols)) [
    | inl e ↦ rw (executor_symbol_allowed, e) refl
    | inr (s, e) ↦
        let paper = paper_allowed_by_entry m symbol s e in
        elim (Bool-cases (is_paper_state s.state)) [
          | inl p ↦ rw (executor_symbol_allowed, e, paper, p) refl
          | inr p ↦ rw (executor_symbol_allowed, e, paper, p) refl
        ]
  ]

  -- After any sequence of calls on a new manifest, the executor may trade a symbol exactly when the
  -- calls about that symbol alone, in their order, leave it in a paper state: PAPER_ALLOWED,
  -- PAPER_ACTIVE or REDUCE_ONLY, which takes an addition and a later move to such a state.
  pub executor_symbol_allowed_iff :
      (universe_id approved_by symbol : String) (cs : List Change)
      → ((executor_symbol_allowed (run cs (create D universe_id approved_by)) symbol).allowed
          ≡ true)
        ↔ ((state : SymbolState) × (state_after symbol cs none ≡ some state)
            × (is_paper_state state ≡ true))
  unfolding create state_of lookup
  executor_symbol_allowed_iff universe_id approved_by symbol cs =
      let m = run cs (create D universe_id approved_by) in
      let states : state_of symbol m ≡ state_after symbol cs none =
        state_of-run symbol cs (create D universe_id approved_by) in
      rw (allowed_by_entry, sym states) (allowed_entry_iff (lookup symbol m.symbols))
