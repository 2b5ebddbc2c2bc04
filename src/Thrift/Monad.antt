-- ===== src/Thrift/Monad.antt =====
-- Operations on the buffer of libsax/sax/net/buffer.h, one after the other.
use xlibsax.Prelude.{Option, none, some}
use xlibsax.Buffer.{Buffer}

-- `none` is a fault.
abbrev pub M : Type 0 → Type 0
M A = Buffer → Option (A × Buffer)

abbrev pub pure : {A : Type 0} → A → M A
pure a b = some (a, b)

infixl 5 ◌>>=◌ ◌>>◌
abbrev pub ◌>>=◌ : {A B : Type 0} → M A → (A → M B) → M B
◌>>=◌ m f b = elim (m b) [ none ↦ none | some (a, b') ↦ f a b' ]

abbrev pub ◌>>◌ : {A B : Type 0} → M A → M B → M B
m >> k = m >>= λ _. k
