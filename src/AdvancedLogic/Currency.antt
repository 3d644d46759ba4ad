-- ===== src/AdvancedLogic/Currency.antt =====
-- The currency manager that the extensions are given (`ICurrencyManager`), as an interface, and the
-- error of a currency that it does not know (packages/currency/src/errors.ts).
use request_network.Base.{String, Bool, Option, append}

pub record CurrencyManager : Type 1 where
  pub Definition : Type 0
  pub find : String → String → Option Definition
  pub validate_address : String → Definition → Bool

-- `new UnsupportedCurrencyError({ value, network })`
unfoldable pub unsupported_currency_error : String → String → String
unsupported_currency_error symbol network =
    append "The currency '"
      (append symbol (append "' on " (append network " is unknown or not supported.")))
