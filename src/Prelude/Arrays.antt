-- ===== src/Prelude/Arrays.antt =====
-- A std::vector or a plain array: its size, and its elements as a function. What the function
-- says past the size is never read: an access out of range is undefined behaviour, `none` here.
use Prim.Native.Nat.{ℕ, ◌+◌, ◌-◌}
use mathlib.Core.Path.{◌≡◌, refl}
use mathlib.Core.Bool.{Bool, true, false}
use mathlib.Core.Option.{Option, none, some}
use osrm_backend.Prelude.Tests.{ltb, ◌==◌, if◌then◌else◌}

infixl 5 ◌>>=◌ ◌>>◌
abbrev pub ◌>>=◌ {ℓ κ} : {A : Type ℓ} {B : Type κ} → Option A → (A → Option B) → Option B
none >>= f = none
some a >>= f = f a

abbrev pub ◌>>◌ {ℓ} : {B : Type ℓ} → Option (Unit {0}) → Option B → Option B
m >> k = m >>= λ _. k

-- BOOST_ASSERT: a test that fails stops the program.
abbrev pub check : Bool → Option (Unit {0})
check true = some tt
check false = none

-- The run ends without undefined behaviour or a failed assertion, in a value that satisfies `P`.
pub data Returns {ℓ κ} {A : Type ℓ} (P : A → Type κ) : Option A → Type (ℓ ⊔ κ) where
  done : {a : A} → P a → Returns P (some a)

module _ {ℓ κ} {A : Type ℓ} {P : A → Type κ} where
  pub Returns-weaken {κ'} :
      {Q : A → Type κ'} {o : Option A} → Returns P o → ((a : A) → P a → Q a) → Returns Q o
  Returns-weaken (done p) f = done (f _ p)

  pub Returns->>= {ℓ' κ'} :
      {B : Type ℓ'} {Q : B → Type κ'} {o : Option A} {k : A → Option B}
      → Returns P o
      → ((a : A) → P a → Returns Q (k a))
      → Returns Q (o >>= k)
  Returns->>= (done p) f = f _ p

  pub value_of : {o : Option A} → Returns P o → (a : A) × (o ≡ some a) × P a
  value_of (done p) = (_, refl, p)

pub record Array {ℓ} (A : Type ℓ) : Type ℓ where
  pub size : ℕ
  pub at : ℕ → A

module _ {ℓ} {A : Type ℓ} where
  abbrev pub update : (ℕ → A) → ℕ → A → ℕ → A
  update f i v j = if j == i then v else f j

  -- `a[i]`
  abbrev pub load : Array A → ℕ → Option A
  load a i = if ltb i a.size then some (a.at i) else none

  -- `a[i] = v`
  abbrev pub store : Array A → ℕ → A → Option (Array A)
  store a i v = if ltb i a.size then some (record a { at = update a.at i v }) else none

  abbrev pub push_back : Array A → A → Array A
  push_back a v = record { size = a.size + 1; at = update a.at a.size v }

  abbrev pub pop_back : Array A → Array A
  pop_back a = record a { size = a.size - 1 }
