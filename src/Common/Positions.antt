-- ===== src/Common/Positions.antt =====
-- The moves of a sequence that are made at a position, and lists whose elements have distinct keys.
use Prim.Native.Nat.{ℕ, zero, suc, ◌≤◌}
use mathlib.Core.Path.{◌≡◌, refl, sym, ap, ◌∙◌}
use mathlib.Core.Logic.{◌≢◌}
use mathlib.Core.List.{List, [], ◌∷◌, ◌++◌, map}
use mathlib.Core.Option.{Option, none, some}
use native.Mathlib.Omega.{arith}
use mathlib.Core.Logic.{inl, inr}
use fiware_io_tagent_cpluspl.Common.Bools.{Option-cases}
use fiware_io_tagent_cpluspl.Common.Lists.{length, get_elem?, All, All-append, length-append}

module _ {ℓ} {A : Type ℓ} where
  abbrev pub erase_at : ℕ → List A → List A
  erase_at i [] = []
  erase_at zero (x ∷ xs) = xs
  erase_at (suc i) (x ∷ xs) = x ∷ erase_at i xs

  -- relocate(begin(), i), and relocate(end(), i)
  abbrev pub move_front : ℕ → List A → List A
  move_front i xs = elim (get_elem? xs i) [ none ↦ xs | some x ↦ x ∷ erase_at i xs ]

  abbrev pub move_back : ℕ → List A → List A
  move_back i xs = elim (get_elem? xs i) [ none ↦ xs | some x ↦ erase_at i xs ++ (x ∷ []) ]

  -- pop_back()
  abbrev pub drop_last : List A → List A
  drop_last [] = []
  drop_last (x ∷ []) = []
  drop_last (x ∷ y ∷ xs) = x ∷ drop_last (y ∷ xs)

  -- back()
  abbrev pub last? : List A → Option A
  last? [] = none
  last? (x ∷ []) = some x
  last? (x ∷ y ∷ xs) = last? (y ∷ xs)

  pub length-erase_at :
      (i : ℕ) (xs : List A) (x : A)
      → get_elem? xs i ≡ some x
      → suc (length (erase_at i xs)) ≡ length xs
  length-erase_at i [] x e = ground arith
  length-erase_at zero (y ∷ xs) x e = refl
  length-erase_at (suc i) (y ∷ xs) x e = omega (arith, length-erase_at i xs x e)

  pub length-erase_at_le : (i : ℕ) (xs : List A) → length (erase_at i xs) ≤ length xs
  length-erase_at_le i [] = omega arith
  length-erase_at_le zero (y ∷ xs) = omega arith
  length-erase_at_le (suc i) (y ∷ xs) = omega (arith, length-erase_at_le i xs)

  pub length-drop_last : (x : A) (xs : List A) → length (drop_last (x ∷ xs)) ≡ length xs
  length-drop_last x [] = refl
  length-drop_last x (y ∷ xs) = omega (arith, length-drop_last y xs)

  pub move_front-of_some :
      (i : ℕ) (xs : List A) (x : A) → get_elem? xs i ≡ some x → move_front i xs ≡ x ∷ erase_at i xs
  move_front-of_some i xs x e = rw (e, move_front) refl

  move_front-of_none : (i : ℕ) (xs : List A) → get_elem? xs i ≡ none → move_front i xs ≡ xs
  move_front-of_none i xs e = rw (e, move_front) refl

  move_back-of_some :
      (i : ℕ) (xs : List A) (x : A)
      → get_elem? xs i ≡ some x
      → move_back i xs ≡ erase_at i xs ++ (x ∷ [])
  move_back-of_some i xs x e = rw (e, move_back) refl

  move_back-of_none : (i : ℕ) (xs : List A) → get_elem? xs i ≡ none → move_back i xs ≡ xs
  move_back-of_none i xs e = rw (e, move_back) refl

  pub length-move_front : (i : ℕ) (xs : List A) → length (move_front i xs) ≡ length xs
  length-move_front i xs = elim (Option-cases (get_elem? xs i)) [
    | inl e ↦ rw (move_front-of_none i xs e) refl
    | inr (x, e) ↦ rw (move_front-of_some i xs x e) (length-erase_at i xs x e)
  ]

  pub length-move_back : (i : ℕ) (xs : List A) → length (move_back i xs) ≡ length xs
  length-move_back i xs = elim (Option-cases (get_elem? xs i)) [
    | inl e ↦ rw (move_back-of_none i xs e) refl
    | inr (x, e) ↦
        rw (move_back-of_some i xs x e)
          (omega (arith, length-erase_at i xs x e, length-append (erase_at i xs) (x ∷ [])))
  ]

module _ {ℓ κ} {A : Type ℓ} (P : A → Type κ) where
  pub All-erase_at : (i : ℕ) (xs : List A) → All P xs → All P (erase_at i xs)
  All-erase_at i [] h = tt
  All-erase_at zero (x ∷ xs) h = h.1
  All-erase_at (suc i) (x ∷ xs) h = (h.0, All-erase_at i xs h.1)

  pub All-drop_last : (xs : List A) → All P xs → All P (drop_last xs)
  All-drop_last [] h = tt
  All-drop_last (x ∷ []) h = tt
  All-drop_last (x ∷ y ∷ xs) h = (h.0, All-drop_last (y ∷ xs) h.1)

  pub All-get_elem? : (i : ℕ) (xs : List A) (x : A) → All P xs → get_elem? xs i ≡ some x → P x
  All-get_elem? i [] x h e = absurd (ground arith)
  All-get_elem? zero (y ∷ xs) x h e = ground (arith, h.0)
  All-get_elem? (suc i) (y ∷ xs) x h e = All-get_elem? i xs x h.1 e

-- No two elements of the list have the same key.
module _ {ℓ κ} {A : Type ℓ} {K : Type κ} (key : A → K) where
  abbrev pub Lacks : K → List A → Type κ
  Lacks k xs = All (λ (x : A). key x ≢ k) xs

  abbrev pub IsDistinct : List A → Type κ
  IsDistinct [] = Unit
  IsDistinct (x ∷ xs) = Lacks (key x) xs × IsDistinct xs

  pub IsDistinct-erase_at : (i : ℕ) (xs : List A) → IsDistinct xs → IsDistinct (erase_at i xs)
  IsDistinct-erase_at i [] h = tt
  IsDistinct-erase_at zero (x ∷ xs) h = h.1
  IsDistinct-erase_at (suc i) (x ∷ xs) h =
      (All-erase_at (λ (y : A). key y ≢ key x) i xs h.0, IsDistinct-erase_at i xs h.1)

  pub IsDistinct-drop_last : (xs : List A) → IsDistinct xs → IsDistinct (drop_last xs)
  IsDistinct-drop_last [] h = tt
  IsDistinct-drop_last (x ∷ []) h = tt
  IsDistinct-drop_last (x ∷ y ∷ xs) h =
      (All-drop_last (λ (z : A). key z ≢ key x) (y ∷ xs) h.0, IsDistinct-drop_last (y ∷ xs) h.1)

  -- What is taken out is not left behind.
  pub Lacks-erase_at :
      (i : ℕ) (xs : List A) (x : A)
      → IsDistinct xs
      → get_elem? xs i ≡ some x
      → Lacks (key x) (erase_at i xs)
  Lacks-erase_at i [] x h e = tt
  Lacks-erase_at zero (y ∷ xs) x h e = ground (arith, h.0)
  Lacks-erase_at (suc i) (y ∷ xs) x h e = (
    λ same. All-get_elem? (λ (z : A). key z ≢ key y) i xs x h.0 e (sym same),
    Lacks-erase_at i xs x h.1 e,
  )

  pub IsDistinct-append :
      (xs : List A) (x : A) → IsDistinct xs → Lacks (key x) xs → IsDistinct (xs ++ (x ∷ []))
  IsDistinct-append [] x h f = (tt, tt)
  IsDistinct-append (y ∷ xs) x h f = (
    All-append (λ (z : A). key z ≢ key y) xs (x ∷ []) h.0 (λ same. f.0 (sym same), tt),
    IsDistinct-append xs x h.1 f.1,
  )

  pub IsDistinct-move_front : (i : ℕ) (xs : List A) → IsDistinct xs → IsDistinct (move_front i xs)
  IsDistinct-move_front i xs h = elim (Option-cases (get_elem? xs i)) [
    | inl e ↦ rw (move_front-of_none i xs e) h
    | inr (x, e) ↦
        rw (move_front-of_some i xs x e) (Lacks-erase_at i xs x h e, IsDistinct-erase_at i xs h)
  ]

  pub IsDistinct-move_back : (i : ℕ) (xs : List A) → IsDistinct xs → IsDistinct (move_back i xs)
  IsDistinct-move_back i xs h = elim (Option-cases (get_elem? xs i)) [
    | inl e ↦ rw (move_back-of_none i xs e) h
    | inr (x, e) ↦ rw (move_back-of_some i xs x e) (
        IsDistinct-append (erase_at i xs) x (IsDistinct-erase_at i xs h)
          (Lacks-erase_at i xs x h e))
  ]

-- A map that leaves the keys as they are leaves a list distinct.
module _ {ℓ κ} {A : Type ℓ} {K : Type κ} (key : A → K) (f : A → A)
    (same : (x : A) → key (f x) ≡ key x) where
  pub length-map : (xs : List A) → length (map f xs) ≡ length xs
  length-map [] = refl
  length-map (x ∷ xs) = ap suc (length-map xs)

  Lacks-map : (k : K) (xs : List A) → Lacks key k xs → Lacks key k (map f xs)
  Lacks-map k [] h = tt
  Lacks-map k (x ∷ xs) h = (λ e. h.0 (sym (same x) ∙ e), Lacks-map k xs h.1)

  pub IsDistinct-map : (xs : List A) → IsDistinct key xs → IsDistinct key (map f xs)
  IsDistinct-map [] h = tt
  IsDistinct-map (x ∷ xs) h = (rw (same x) (Lacks-map (key x) xs h.0), IsDistinct-map xs h.1)
