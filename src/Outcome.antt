-- ===== src/Outcome.antt =====
-- What a routine over a raw buffer can do: return, throw a C++ exception, or read outside the
-- buffer. `stuck` is no behaviour of the source: a loop of the model ran out of fuel.
use socks5proxy_native.Prelude.{
  ℕ, zero, suc, ◌+◌, ◌≤◌, ◌<◌, ◌≡◌, refl, Bool, true, false, if◌then◌else◌, List, [], ◌∷◌, ◌++◌,
  none, some, length, get_elem?, get_elem?-lt, get_elem?-append, arith,
}

pub data Outcome {ℓ} (A : Type ℓ) : Type ℓ where
  ok : A → Outcome A
  throws : Outcome A
  fault : Outcome A
  stuck : Outcome A

infixl 5 ◌>>=◌
abbrev pub ◌>>=◌ {ℓ κ} : {A : Type ℓ} {B : Type κ} → Outcome A → (A → Outcome B) → Outcome B
ok a >>= f = f a
throws >>= f = throws
fault >>= f = fault
stuck >>= f = stuck

-- The routine returns a value with `P`, or throws.
abbrev pub Safe {ℓ} : {A : Type ℓ} → (A → Type 0) → Outcome A → Type 0
Safe P (ok a) = P a
Safe P throws = Unit
Safe P fault = ⊥
Safe P stuck = ⊥

pub Safe-bind {ℓ κ} :
    {A : Type ℓ} {B : Type κ} (P : A → Type 0) (Q : B → Type 0) (m : Outcome A) (f : A → Outcome B)
    → Safe P m
    → ((a : A) → P a → Safe Q (f a))
    → Safe Q (m >>= f)
Safe-bind P Q (ok a) f h k = k a h
Safe-bind P Q throws f h k = tt
Safe-bind P Q fault f h k = absurd h
Safe-bind P Q stuck f h k = absurd h

-- The routine returns a value with `P`.
abbrev pub Returns {ℓ} : {A : Type ℓ} → (A → Type 0) → Outcome A → Type 0
Returns P (ok a) = P a
Returns P throws = ⊥
Returns P fault = ⊥
Returns P stuck = ⊥

-- A step that returns some value, and what follows it for every value.
pub Returns-bind {ℓ κ} :
    {A : Type ℓ} {B : Type κ} (Q : B → Type 0) (m : Outcome A) (f : A → Outcome B)
    → (a : A) × (m ≡ ok a)
    → ((a : A) → Returns Q (f a))
    → Returns Q (m >>= f)
Returns-bind Q m f (a, e) k = rw e (k a)

pub Returns-if {ℓ} :
    {A : Type ℓ} (P : A → Type 0) (b : Bool) (x y : Outcome A)
    → Returns P x
    → (b ≡ false → Returns P y)
    → Returns P (if b then x else y)
Returns-if P true x y h k = h
Returns-if P false x y h k = k refl

pub Returns-value {ℓ} :
    {A : Type ℓ} (P : A → Type 0) (m : Outcome A) → Returns P m → (a : A) × (m ≡ ok a) × P a
Returns-value P (ok a) h = (a, refl, h)
Returns-value P throws h = absurd h
Returns-value P fault h = absurd h
Returns-value P stuck h = absurd h

-- `buffer[pos]`.
unfoldable pub read_u8 : List ℕ → ℕ → Outcome ℕ
read_u8 buffer pos = elim (get_elem? buffer pos) [ none ↦ fault | some b ↦ ok b ]

pub read_u8-ok :
    (buffer : List ℕ) (pos : ℕ) → pos < length buffer → (b : ℕ) × (read_u8 buffer pos ≡ ok b)
unfolding read_u8
read_u8-ok buffer pos h = ground (arith, get_elem?-lt buffer pos h)

-- `count` bytes from `pos` on, as `memcpy` or `inet_ntop` reads them.
unfoldable pub read_bytes : ℕ → List ℕ → ℕ → Outcome (List ℕ)
unfolding read_u8
read_bytes zero buffer pos = ok []
read_bytes (suc count) buffer pos = do
  b ← read_u8 buffer pos
  bs ← read_bytes count buffer (pos + 1)
  ok (b ∷ bs)

pub read_bytes-ok :
    (count : ℕ) (buffer : List ℕ) (pos : ℕ)
    → pos + count ≤ length buffer
    → (bs : List ℕ) × (read_bytes count buffer pos ≡ ok bs) × (length bs ≡ count)
unfolding read_bytes
read_bytes-ok zero buffer pos h = ([], refl, refl)
read_bytes-ok (suc count) buffer pos h =
    let (b, e) = get_elem?-lt buffer pos (omega arith) in
    let (bs, e', l) = read_bytes-ok count buffer (pos + 1) (omega arith) in
    (b ∷ bs, ground (arith, e, e'), omega arith)

-- A read behind a known prefix.
pub read_u8-append :
    (xs ys : List ℕ) (i j : ℕ) → i ≡ length xs + j → read_u8 (xs ++ ys) i ≡ read_u8 ys j
unfolding read_u8
read_u8-append xs ys i j e = ground (arith, get_elem?-append xs ys i j e)

pub read_bytes-append :
    (count : ℕ) (xs ys : List ℕ) (i j : ℕ)
    → i ≡ length xs + j
    → read_bytes count (xs ++ ys) i ≡ read_bytes count ys j
unfolding read_bytes
read_bytes-append zero xs ys i j e = refl
read_bytes-append (suc count) xs ys i j e =
    ground (arith, get_elem?-append xs ys i j e, read_bytes-append count xs ys (i + 1) (j + 1))

read_bytes-cons :
    (count : ℕ) (b : ℕ) (ys : List ℕ) (i j : ℕ)
    → i ≡ j + 1
    → read_bytes count (b ∷ ys) i ≡ read_bytes count ys j
read_bytes-cons count b ys i j e = read_bytes-append count (b ∷ []) ys i j (omega arith)

-- Reading exactly the bytes that stand there.
pub read_bytes-exact :
    (bs rest : List ℕ) (count : ℕ) → count ≡ length bs → read_bytes count (bs ++ rest) 0 ≡ ok bs
unfolding read_bytes
read_bytes-exact [] rest zero e = refl
read_bytes-exact [] rest (suc count) e = absurd (omega arith)
read_bytes-exact (b ∷ bs) rest zero e = absurd (omega arith)
read_bytes-exact (b ∷ bs) rest (suc count) e = rw (
  read_bytes-cons count b (bs ++ rest) (0 + 1) 0 refl,
  read_bytes-exact bs rest count (omega arith),
)
