-- ===== src/Governance/Newest.antt =====
-- The newest row of a table, once a row later than all of them is added
-- (the queries of src/engine/governance/lifecycle.py).
use Prim.Native.Nat.{Ordering}
use proofalpha.Prelude.{
  String, Bool, true, false, Option, some, List, ◌∷◌, [], ◌++◌, ◌≡◌, refl, ap, arith, eq_refl, All,
}
use proofalpha.Governance.Journal.{rows_at}
use proofalpha.Governance.Status.{newer, compare_null, newest_of, newest}

-- The row has an earlier time than the given one, or none.
abbrev pub IsOlder : {A : Type 0} → (A → Option String) → String → A → Type 0
IsOlder key now a = compare_null (key a) (some now) ≡ Ordering.lt

newer_lt :
    {A : Type 0} (o : Ordering) (later : Bool) (a b : A) → o ≡ Ordering.lt → newer o later a b ≡ b
newer_lt Ordering.lt later a b h = refl
newer_lt Ordering.eq later a b h = cc
newer_lt Ordering.gt later a b h = cc

newer-IsOlder :
    {A : Type 0} (key : A → Option String) (now : String) (o : Ordering) (later : Bool) (a b : A)
    → IsOlder key now a
    → IsOlder key now b
    → IsOlder key now (newer o later a b)
newer-IsOlder key now Ordering.lt later a b h k = k
newer-IsOlder key now Ordering.gt later a b h k = h
newer-IsOlder key now Ordering.eq true a b h k = k
newer-IsOlder key now Ordering.eq false a b h k = h

newest_of_last :
    {A : Type 0} (later : A → A → Bool) (key : A → Option String) (now : String) (rows : List A)
    (a last : A)
    → key last ≡ some now
    → IsOlder key now a
    → All (IsOlder key now) rows
    → newest_of later key a (rows ++ (last ∷ [])) ≡ last
unfolding newest_of
newest_of_last later key now [] a last e h hs = newer_lt _ _ a last (rw e h)
newest_of_last later key now (b ∷ rest) a last e h (k, ks) =
    newest_of_last later key now rest (newer (compare_null (key a) (key b)) (later a b) a b) last e
      (newer-IsOlder key now (compare_null (key a) (key b)) (later a b) a b h k) ks

pub newest_last :
    {A : Type 0} (later : A → A → Bool) (key : A → Option String) (now : String) (rows : List A)
    (last : A)
    → key last ≡ some now
    → All (IsOlder key now) rows
    → newest later key (rows ++ (last ∷ [])) ≡ some last
unfolding newest newest_of
newest_last later key now [] last e hs = refl
newest_last later key now (a ∷ rest) last e (h, hs) =
    ap some (newest_of_last later key now rest a last e h hs)

pub rows_at-append :
    {A : Type 0} (key : A → String) (id : String) (rows : List A) (last : A)
    → key last ≡ id
    → rows_at key id (rows ++ (last ∷ [])) ≡ rows_at key id rows ++ (last ∷ [])
unfolding rows_at
rows_at-append key id [] last e = rw (e, eq_refl id) refl
rows_at-append key id (a ∷ rest) last e =
    let rec = rows_at-append key id rest last e in ground arith
