-- ===== src/Prelude/Relations.antt =====
-- Relations between every two elements of a list, in their order.
use Prim.Native.Nat.{ℕ, zero, suc, ◌≤◌, ◌<◌}
use mathlib.Core.Path.{◌≡◌, refl}
use mathlib.Core.List.{List, [], ◌∷◌}
use mathlib.Core.Option.{some}
use native.Mathlib.Omega.{arith}
use ya_vhost.Prelude.Lists.{All, get_elem?, insert_at, remove_at, All-insert_at, All-remove_at}

abbrev pub Pairs {ℓ κ} : {A : Type ℓ} → (A → A → Type κ) → List A → Type κ
Pairs R [] = Unit
Pairs R (x ∷ xs) = All (R x) xs × Pairs R xs

pub All-of_get_elem? {ℓ κ} :
    {A : Type ℓ} (P : A → Type κ) (xs : List A)
    → ((j : ℕ) (s : A) → get_elem? xs j ≡ some s → P s)
    → All P xs
All-of_get_elem? P [] h = tt
All-of_get_elem? P (x ∷ xs) h = (h 0 x refl, All-of_get_elem? P xs (λ j s e. h (suc j) s e))

module _ {ℓ κ} {A : Type ℓ} (R : A → A → Type κ) where
  -- What goes before and what goes after the new element decides.
  pub Pairs-insert_at :
      (i : ℕ) (v : A) (xs : List A)
      → Pairs R xs
      → ((j : ℕ) (s : A) → get_elem? xs j ≡ some s → j < i → R s v)
      → ((j : ℕ) (s : A) → get_elem? xs j ≡ some s → i ≤ j → R v s)
      → Pairs R (insert_at i v xs)
  Pairs-insert_at zero v xs p before after =
      (All-of_get_elem? (R v) xs (λ j s e. after j s e (omega arith)), p)
  Pairs-insert_at (suc i) v [] p before after = (tt, tt)
  Pairs-insert_at (suc i) v (x ∷ xs) p before after = (
    All-insert_at (R x) i v xs (before 0 x refl (omega arith)) p.0,
    Pairs-insert_at i v xs p.1 (λ j s e lt. before (suc j) s e (omega arith))
        (λ j s e le. after (suc j) s e (omega arith)),
  )

  pub Pairs-remove_at : (i : ℕ) (xs : List A) → Pairs R xs → Pairs R (remove_at i xs)
  Pairs-remove_at zero [] p = tt
  Pairs-remove_at (suc i) [] p = tt
  Pairs-remove_at zero (x ∷ xs) p = p.1
  Pairs-remove_at (suc i) (x ∷ xs) p = (All-remove_at (R x) i xs p.0, Pairs-remove_at i xs p.1)
