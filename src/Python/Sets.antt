-- ===== src/Python/Sets.antt =====
-- `sorted(set(xs))` of a list of texts, and `sorted(d.items())` of a dict keyed by texts: Python
-- orders texts by code points, as the comparison of native strings does.
use Prim.Native.Nat.{Ordering}
use Prim.Native.String.{compare}
use text.Mathlib.TextEquality.{path_by_compare}
use proofalpha.Prelude.{
  String, false, List, ◌∷◌, [], ◌≡◌, ◌↔◌, refl, ◌==◌, ◌||◌, arith, eq_iff, contains, is_empty, All,
}
use proofalpha.Prelude.Dict.{Dict}

place : Ordering → String → String → List String → List String → List String
place Ordering.lt s x xs rest = s ∷ x ∷ xs
place Ordering.eq s x xs rest = x ∷ xs
place Ordering.gt s x xs rest = x ∷ rest

insert_sorted : String → List String → List String
unfolding place
insert_sorted s [] = s ∷ []
insert_sorted s (x ∷ xs) = place (compare s x) s x xs (insert_sorted s xs)

unfoldable pub sorted_set : List String → List String
unfolding insert_sorted
sorted_set [] = []
sorted_set (x ∷ xs) = insert_sorted x (sorted_set xs)

contains-place :
    (o : Ordering) (t s x : String) (xs rest : List String)
    → o ≡ compare s x
    → contains t rest ≡ (t == s || contains t xs)
    → contains t (place o s x xs rest) ≡ (t == s || contains t (x ∷ xs))
unfolding place contains
contains-place Ordering.lt t s x xs rest e h = refl
contains-place Ordering.eq t s x xs rest e h =
    ground (arith, path_by_compare s x, eq_iff t s, eq_iff t x)
contains-place Ordering.gt t s x xs rest e h = ground arith

contains-insert_sorted :
    (t s : String) (xs : List String) → contains t (insert_sorted s xs) ≡ (t == s || contains t xs)
unfolding insert_sorted
contains-insert_sorted t s [] = unfold contains in refl
contains-insert_sorted t s (x ∷ xs) =
    contains-place (compare s x) t s x xs (insert_sorted s xs) refl (contains-insert_sorted t s xs)

-- Sorting a set keeps exactly its members.
pub contains-sorted_set :
    (t : String) (xs : List String) → contains t (sorted_set xs) ≡ contains t xs
unfolding sorted_set
contains-sorted_set t [] = refl
contains-sorted_set t (x ∷ xs) =
    rw (contains-insert_sorted t x (sorted_set xs), contains-sorted_set t xs)
      (unfold contains in refl)

place_nonempty :
    (o : Ordering) (s x : String) (xs rest : List String) → is_empty (place o s x xs rest) ≡ false
unfolding place
place_nonempty Ordering.lt s x xs rest = refl
place_nonempty Ordering.eq s x xs rest = refl
place_nonempty Ordering.gt s x xs rest = refl

insert_nonempty : (s : String) (xs : List String) → is_empty (insert_sorted s xs) ≡ false
unfolding insert_sorted
insert_nonempty s [] = refl
insert_nonempty s (x ∷ xs) = place_nonempty (compare s x) s x xs (insert_sorted s xs)

pub is_empty-sorted_set : (xs : List String) → is_empty (sorted_set xs) ≡ is_empty xs
unfolding sorted_set
is_empty-sorted_set [] = refl
is_empty-sorted_set (x ∷ xs) = insert_nonempty x (sorted_set xs)

module _ {ℓ} {V : Type ℓ} where
  place_item : Ordering → String × V → String × V → Dict V → Dict V → Dict V
  place_item Ordering.lt e x d rest = e ∷ x ∷ d
  place_item Ordering.eq e x d rest = e ∷ x ∷ d
  place_item Ordering.gt e x d rest = x ∷ rest

  insert_item : String × V → Dict V → Dict V
  unfolding place_item
  insert_item e [] = e ∷ []
  insert_item e (x ∷ d) = place_item (compare e.0 x.0) e x d (insert_item e d)

  -- The keys of a dict are distinct, so their order alone decides.
  unfoldable pub sorted_items : Dict V → Dict V
  unfolding insert_item
  sorted_items [] = []
  sorted_items (e ∷ d) = insert_item e (sorted_items d)

module _ {ℓ κ} {V : Type ℓ} (P : String × V → Type κ) where
  place_item-All :
      (o : Ordering) (e x : String × V) (d rest : Dict V)
      → All P rest ↔ (P e × All P d)
      → All P (place_item o e x d rest) ↔ (P e × All P (x ∷ d))
  unfolding place_item
  place_item-All Ordering.lt e x d rest h = (λ a. a, λ a. a)
  place_item-All Ordering.eq e x d rest h = (λ a. a, λ a. a)
  place_item-All Ordering.gt e x d rest h =
      (λ a. ((h.0 a.1).0, (a.0, (h.0 a.1).1)), λ a. (a.1.0, h.1 (a.0, a.1.1)))

  insert_item-All : (e : String × V) (d : Dict V) → All P (insert_item e d) ↔ (P e × All P d)
  unfolding insert_item
  insert_item-All e [] = (λ a. a, λ a. a)
  insert_item-All e (x ∷ d) =
      place_item-All (compare e.0 x.0) e x d (insert_item e d) (insert_item-All e d)

  -- Sorting the items of a dict keeps what holds of all of them.
  pub sorted_items-All : (d : Dict V) → All P (sorted_items d) ↔ All P d
  unfolding sorted_items
  sorted_items-All [] = (λ a. a, λ a. a)
  sorted_items-All (e ∷ d) =
      let i = insert_item-All e (sorted_items d) in
      let r = sorted_items-All d in (λ a. ((i.0 a).0, r.0 (i.0 a).1), λ a. i.1 (a.0, r.1 a.1))
