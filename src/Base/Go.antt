-- ===== src/Base/Go.antt =====
-- What the Go sources use throughout: results with an error, slices that may be nil, 64-bit
-- counters, and the callbacks that a component fires.
use Prim.Native.Nat.{ℕ, ◌+◌, ◌%◌, ◌^◌}
use mathlib.Core.List.{List, [], ◌∷◌}
use mathlib.Core.Option.{Option, none, some}

-- A value, or an error of type `E`.
pub data Result {ℓ κ} (E : Type ℓ) (A : Type κ) : Type (ℓ ⊔ κ) where
  ok : A → Result E A
  err : E → Result E A

-- A slice; `none` is nil.
abbrev pub Slice {ℓ} : Type ℓ → Type ℓ
Slice A = Option (List A)

abbrev pub elems {ℓ} : {A : Type ℓ} → Slice A → List A
elems none = []
elems (some xs) = xs

-- []byte and json.RawMessage, as numbers below 256.
abbrev pub Bytes : Type 0
Bytes = Slice ℕ

-- append([]T(nil), xs...): a copy, which is nil if there is nothing to copy.
unfoldable pub append_copy {ℓ} : {A : Type ℓ} → Slice A → Slice A
append_copy none = none
append_copy (some []) = none
append_copy (some (x ∷ xs)) = some (x ∷ xs)

-- uint64 addition of one.
abbrev pub next_uint64 : ℕ → ℕ
next_uint64 n = (n + 1) % 2 ^ 64

-- A callback changes the state `S` outside the component. It may panic, and what it did before
-- stays done.
pub data Outcome {ℓ} (S : Type ℓ) : Type ℓ where
  returned panicked : S → Outcome S

abbrev pub Handler {ℓ} : Type ℓ → Type ℓ → Type ℓ
Handler E S = E → S → Outcome S

-- func() { defer func() { _ = recover() }(); h(evt) }()
unfoldable pub recovered {ℓ} : {S : Type ℓ} → Outcome S → S
recovered (returned s) = s
recovered (panicked s) = s

-- A signed 64-bit duration in nanoseconds; `negsuc n` is -(n + 1).
pub data Duration : Type 0 where
  pos : ℕ → Duration
  negsuc : ℕ → Duration

-- time.Second
abbrev pub second : ℕ
second = 1000000000
