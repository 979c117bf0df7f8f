-- ===== src/Prelude/Lists.antt =====
-- Lists measured by native numbers, and lists of texts as Python's `in` and `any` read them.
use Prim.Native.Nat.{ℕ, suc, ◌+◌}
use Prim.Native.String.{String}
use text.Mathlib.Text.{◌==◌}
use mathlib.Core.Path.{◌≡◌, refl}
use mathlib.Core.Logic.{◌↔◌}
use mathlib.Core.Bool.{Bool, true, false, not, ◌&&◌, ◌||◌}
use mathlib.Core.List.{List, [], ◌∷◌, ◌++◌}
use native.Mathlib.Omega.{arith}

module _ {ℓ} {A : Type ℓ} where
  abbrev pub length : List A → ℕ
  length [] = 0
  length (x ∷ xs) = suc (length xs)

  -- `not xs`
  abbrev pub is_empty : List A → Bool
  is_empty [] = true
  is_empty (x ∷ xs) = false

  -- `[x] if b else []`
  abbrev pub when : Bool → A → List A
  when true x = x ∷ []
  when false x = []

  pub length-append : (xs ys : List A) → length (xs ++ ys) ≡ length xs + length ys
  length-append [] ys = omega arith
  length-append (x ∷ xs) ys = omega (arith, length-append xs ys)

  pub is_empty-append : (xs ys : List A) → is_empty (xs ++ ys) ≡ (is_empty xs && is_empty ys)
  is_empty-append [] ys = refl
  is_empty-append (x ∷ xs) ys = refl

  pub is_empty-when : (b : Bool) (x : A) → is_empty (when b x) ≡ not b
  is_empty-when true x = refl
  is_empty-when false x = refl

pub empty_iff_and :
    {A : Type 0} {P Q : Type 0} (xs ys : List A)
    → ((is_empty xs ≡ true) ↔ P)
    → ((is_empty ys ≡ true) ↔ Q)
    → (is_empty (xs ++ ys) ≡ true) ↔ (P × Q)
empty_iff_and [] ys p q = (λ h. (p.0 refl, q.0 h), λ (a, b). q.1 b)
empty_iff_and (x ∷ xs) ys p q = (λ h. cc, λ (a, b). p.1 a)

pub empty_when :
    {A P : Type 0} (b : Bool) (x : A) → ((b ≡ false) ↔ P) → (is_empty (when b x) ≡ true) ↔ P
empty_when true x p = (λ h. cc, λ a. let c : true ≡ false = p.1 a in cc)
empty_when false x p = (λ h. p.0 refl, λ a. refl)

abbrev pub All {ℓ κ} : {A : Type ℓ} → (A → Type κ) → List A → Type κ
All P [] = Unit
All P (x ∷ xs) = P x × All P xs

pub All-append {ℓ κ} :
    {A : Type ℓ} (P : A → Type κ) (l m : List A) → All P l → All P m → All P (l ++ m)
All-append P (a ∷ l) m (p, ps) qs = (p, All-append P l m ps qs)
All-append P [] m p q = q

pub All-when {ℓ κ} : {A : Type ℓ} (P : A → Type κ) (b : Bool) (x : A) → P x → All P (when b x)
All-when P true x p = (p, tt)
All-when P false x p = tt

pub All-map {ℓ κ μ} :
    {A : Type ℓ} (P : A → Type κ) (Q : A → Type μ) (xs : List A)
    → ((x : A) → P x → Q x)
    → All P xs
    → All Q xs
All-map P Q [] f h = tt
All-map P Q (x ∷ xs) f h = (f x h.0, All-map P Q xs f h.1)

-- `s in xs`
unfoldable pub contains : String → List String → Bool
contains s [] = false
contains s (x ∷ xs) = s == x || contains s xs

pub contains-append :
    (s : String) (xs ys : List String) → contains s (xs ++ ys) ≡ (contains s xs || contains s ys)
unfolding contains
contains-append s [] ys = refl
contains-append s (x ∷ xs) ys = ground (arith, contains-append s xs ys)
