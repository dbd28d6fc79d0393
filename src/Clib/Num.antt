-- ===== src/Clib/Num.antt =====
-- printnum of lib/printfmt.c. What a function prints is the list of the characters that it hands
-- to `putch`, in order.
pub mod Digits
mod Tests
use kludgeos.Base.{
  ℕ, zero, suc, ◌+◌, ◌-◌, ◌/◌, ◌%◌, ◌<◌, List, [], ◌∷◌, ◌++◌, ltb, leb, if◌then◌else◌, replicate,
}

-- "0123456789abcdef"[d]
unfoldable pub hex_digit : ℕ → ℕ
hex_digit d = if ltb d 10 then b'0' + d else b'a' + (d - 10)

-- A width is an int of which only the part above 0 is read: it is cut off at 0. The fuel bounds
-- the digits; a number has fewer digits than its value plus 1.
unfoldable pub printnum_fuel : ℕ → ℕ → ℕ → ℕ → ℕ → List ℕ
unfolding hex_digit
printnum_fuel zero num base width padc = []
printnum_fuel (suc f) num base width padc =
    let high = printnum_fuel f (num / base) base (width - 1) padc in
    (if leb base num then high else replicate (width - 1) padc) ++ hex_digit (num % base) ∷ []

unfoldable pub printnum : ℕ → ℕ → ℕ → ℕ → List ℕ
unfolding printnum_fuel
printnum num base width padc = printnum_fuel (num + 1) num base width padc
