-- ===== src/StdString/Decimal.antt =====
-- boost::lexical_cast<std::string> of a number, and `<<` of a number: its decimal digits.
use camlispp.Prelude.{ℕ, zero, suc, ◌+◌, ◌/◌, ◌%◌, [], ◌∷◌, ltb, if◌then◌else◌}
use camlispp.StdString.Base.{Bytes}

-- The digits in front of `rest`; the first argument is fuel.
unfoldable pub decimal_onto : ℕ → ℕ → Bytes → Bytes
decimal_onto zero n rest = rest
decimal_onto (suc f) n rest =
    let now = (b'0' + n % 10) ∷ rest in
    let more = decimal_onto f (n / 10) now in if ltb n 10 then now else more

-- A number has at most as many digits as itself plus one.
unfoldable pub decimal : ℕ → Bytes
unfolding decimal_onto
decimal n = decimal_onto (suc n) n []
