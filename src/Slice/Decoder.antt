-- ===== src/Slice/Decoder.antt =====
-- The reading functions of bridge-core/src/apdu.rs: each takes the data and `*pos` and returns its
-- value with the new `*pos`; `?` is the bind.
use micro_bacnet_bridge.Base
use micro_bacnet_bridge.Base.{ℕ, List, Option, none, some, Result, ok, err}
use micro_bacnet_bridge.Error.{DecodeError}

abbrev pub Decoder {ℓ} : Type ℓ → Type ℓ
Decoder A = List ℕ → ℕ → Result DecodeError (A × ℕ)

infixl 5 ◌>>=◌ ◌>>◌
unfoldable pub ◌>>=◌ {ℓ κ} : {A : Type ℓ} {B : Type κ} → Decoder A → (A → Decoder B) → Decoder B
◌>>=◌ d k xs pos = Base.◌>>=◌ (d xs pos) (λ (x, pos'). k x xs pos')

unfoldable pub ◌>>◌ {ℓ} : {B : Type ℓ} → Decoder (Unit {0}) → Decoder B → Decoder B
unfolding ◌>>=◌
d >> k = d >>= λ _. k

-- A result that moves nothing.
unfoldable pub lift {ℓ} : {A : Type ℓ} → Result DecodeError A → Decoder A
lift r xs pos = Base.◌>>=◌ r (λ x. ok (x, pos))

unfoldable pub pure {ℓ} : {A : Type ℓ} → A → Decoder A
pure x xs pos = ok (x, pos)
