-- ===== src/Prelude/Assoc.antt =====
-- Equality of keys as an interface, and `std::unordered_map` as an association list.
use Prim.Native.Nat.{ℕ, zero, suc, ◌+◌, ◌≤◌}
use mathlib.Core.Path.{◌≡◌, refl}
use mathlib.Core.Logic.{◌↔◌, ◌≢◌}
use mathlib.Core.Bool.{Bool, true, false, ◌&&◌}
use mathlib.Core.Option.{Option, none, some}
use mathlib.Core.List.{List, [], ◌∷◌}
use native.Mathlib.Omega.{arith}
use socks5proxy_native.Prelude.Tests.{◌==◌, ==_iff, if◌then◌else◌, if-elim}
use socks5proxy_native.Prelude.Lists.{length, All, get_elem?}

pub record Eq {ℓ} (A : Type ℓ) : Type ℓ where
  pub beq : A → A → Bool
  pub beq_iff : (a b : A) → (beq a b ≡ true) ↔ (a ≡ b)

infix 50 ◌=?◌
abbrev pub ◌=?◌ {ℓ} : {A : Type ℓ} ⦃e : Eq A⦄ → A → A → Bool
◌=?◌ ⦃e⦄ = e.beq

abbrev nat_beq : ℕ → ℕ → Bool
nat_beq a b = a == b

instance abbrev pub nat_eq : Eq ℕ
nat_eq = record { beq = nat_beq; beq_iff = ==_iff }

-- `std::string::operator==`.
unfoldable pub same_bytes : List ℕ → List ℕ → Bool
same_bytes [] [] = true
same_bytes [] (b ∷ bs) = false
same_bytes (a ∷ as') [] = false
same_bytes (a ∷ as') (b ∷ bs) = (a == b) && same_bytes as' bs

pub same_bytes_iff : (as' bs : List ℕ) → (same_bytes as' bs ≡ true) ↔ (as' ≡ bs)
unfolding same_bytes
same_bytes_iff [] [] = ((λ e. refl), (λ e. refl))
same_bytes_iff [] (b ∷ bs) = ((λ e. cc), (λ e. cc))
same_bytes_iff (a ∷ as') [] = ((λ e. cc), (λ e. cc))
same_bytes_iff (a ∷ as') (b ∷ bs) =
    ((λ e. ground (arith, same_bytes_iff as' bs)), (λ e. ground (arith, same_bytes_iff as' bs)))

instance abbrev pub bytes_eq : Eq (List ℕ)
bytes_eq = record { beq = same_bytes; beq_iff = same_bytes_iff }

pub beq_refl {ℓ} : {K : Type ℓ} ⦃e : Eq K⦄ (k : K) → (k =? k) ≡ true
beq_refl ⦃e⦄ k = (e.beq_iff k k).1 refl

module _ {ℓ κ} {K : Type ℓ} {V : Type κ} ⦃e : Eq K⦄ where
  unfoldable pub lookup : K → List (K × V) → Option V
  lookup k [] = none
  lookup k ((j, v) ∷ m) = if j =? k then some v else lookup k m

  -- `m[k] = v`: in place, or at the end.
  unfoldable pub insert : K → V → List (K × V) → List (K × V)
  insert k v [] = (k, v) ∷ []
  insert k v ((j, w) ∷ m) = if j =? k then (k, v) ∷ m else (j, w) ∷ insert k v m

  unfoldable pub erase : K → List (K × V) → List (K × V)
  erase k [] = []
  erase k ((j, w) ∷ m) = if j =? k then erase k m else (j, w) ∷ erase k m

  pub lookup-insert :
      (k j : K) (v : V) (m : List (K × V))
      → lookup j (insert k v m) ≡ (if k =? j then some v else lookup j m)
  unfolding lookup insert
  lookup-insert k j v [] = refl
  lookup-insert k j v ((i, w) ∷ m) =
      ground (arith, e.beq_iff k j, e.beq_iff i k, e.beq_iff i j, lookup-insert k j v m)

  pub lookup_empty : (k : K) (m : List (K × V)) → m ≡ [] → lookup k m ≡ none
  unfolding lookup
  lookup_empty k [] e = refl
  lookup_empty k (entry ∷ m) e = absurd (cc)

  pub lookup-insert_self : (k : K) (v : V) (m : List (K × V)) → lookup k (insert k v m) ≡ some v
  lookup-insert_self k v m = rw (lookup-insert k k v m, beq_refl k)

  pub lookup-erase :
      (k j : K) (m : List (K × V)) → lookup j (erase k m) ≡ (if k =? j then none else lookup j m)
  unfolding lookup erase
  lookup-erase k j [] = ground arith
  lookup-erase k j ((i, w) ∷ m) =
      ground (arith, e.beq_iff k j, e.beq_iff i k, e.beq_iff i j, lookup-erase k j m)

  pub lookup-erase_self : (k : K) (m : List (K × V)) → lookup k (erase k m) ≡ none
  lookup-erase_self k m = rw (lookup-erase k k m, beq_refl k)

  pub length-insert : (k : K) (v : V) (m : List (K × V)) → length (insert k v m) ≤ length m + 1
  unfolding insert
  length-insert k v [] = omega arith
  length-insert k v ((j, w) ∷ m) = ground (arith, length-insert k v m)

  pub length-insert_old :
      (k : K) (v : V) (m : List (K × V)) → lookup k m ≢ none → length (insert k v m) ≡ length m
  unfolding insert lookup
  length-insert_old k v [] h = absurd (h refl)
  length-insert_old k v ((j, w) ∷ m) h = ground (arith, length-insert_old k v m)

  pub length-erase : (k : K) (m : List (K × V)) → length (erase k m) ≤ length m
  unfolding erase
  length-erase k [] = omega arith
  length-erase k ((j, w) ∷ m) = ground (arith, length-erase k m)

  -- The value makes no difference to the length.
  pub length-insert_any :
      (k : K) (v w : V) (m : List (K × V)) → length (insert k v m) ≡ length (insert k w m)
  unfolding insert
  length-insert_any k v w [] = refl
  length-insert_any k v w ((j, x) ∷ m) = ground (arith, length-insert_any k v w m)

  -- Erasing a key that stands in the map makes it shorter.
  pub length-erase_at :
      (i : ℕ) (k : K) (v : V) (m : List (K × V))
      → get_elem? m i ≡ some (k, v)
      → length (erase k m) + 1 ≤ length m
  unfolding erase
  length-erase_at i k v [] e = cc
  length-erase_at zero k v ((j, w) ∷ m) e = ground (arith, e, length-erase k m, beq_refl k)
  length-erase_at (suc i) k v ((j, w) ∷ m) e = ground (arith, length-erase_at i k v m e)

  module _ {μ} (P : K × V → Type μ) where
    pub All-insert : (k : K) (v : V) (m : List (K × V)) → P (k, v) → All P m → All P (insert k v m)
    unfolding insert
    All-insert k v [] p a = (p, tt)
    All-insert k v ((j, w) ∷ m) p (q, a) =
        if-elim (All P) (j =? k) _ _ (λ e. (p, a)) (λ e. (q, All-insert k v m p a))

    pub All-erase : (k : K) (m : List (K × V)) → All P m → All P (erase k m)
    unfolding erase
    All-erase k [] a = a
    All-erase k ((j, w) ∷ m) (q, a) =
        if-elim (All P) (j =? k) _ _ (λ e. All-erase k m a) (λ e. (q, All-erase k m a))

  -- What holds of every entry holds of the value found, under some key.
  pub All-lookup {μ} :
      (P : V → Type μ) (k : K) (v : V) (m : List (K × V))
      → All (λ e. P e.1) m
      → lookup k m ≡ some v
      → P v
  unfolding lookup
  All-lookup P k v [] a e = absurd (cc)
  All-lookup P k v ((j, w) ∷ m) (q, a) e = ground (arith, q, e, All-lookup P k v m a)
