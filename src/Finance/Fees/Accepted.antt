-- ===== src/Finance/Fees/Accepted.antt =====
-- The parameters that steps 1 to 5 of CalculateBookingFees let through (calculator.go).
use lapangan_go.Base.{◌≡◌, ◌⊎◌, ◌↔◌, arith, true, false, [], ok, pos, ◌≤ℤ◌, text_eq, trim_space}
use lapangan_go.Finance.Fees.{CalculatorParams, validate_params, is_known_channel}

pub record IsAccepted (p : CalculatorParams) : Type 0 where
  pub price_nonneg : pos 0 ≤ℤ p.original_price_rupiah
  pub bps_nonneg : pos 0 ≤ℤ p.commission_bps
  pub bps_le : p.commission_bps ≤ℤ pos 3000
  pub channel_known : is_known_channel p.booking_channel ≡ true
  pub fee_zero : p.customer_service_fee_rupiah ≡ pos 0
  pub reason_given :
      (p.owner_price_adjustment_rupiah ≡ pos 0)
      ⊎ (text_eq (trim_space p.price_adjustment_reason) [] ≡ false)

validate_params-IsAccepted : (p : CalculatorParams) → validate_params p ≡ ok tt → IsAccepted p
unfolding validate_params
validate_params-IsAccepted p h = ground arith

validate_params_of_IsAccepted : (p : CalculatorParams) → IsAccepted p → validate_params p ≡ ok tt
unfolding validate_params
validate_params_of_IsAccepted p h = ground arith

-- The parameters are let through exactly when the price is not negative, the rate lies between 0
-- and 3000 basis points, the channel is one of the two that are known, the customer's service fee
-- is zero, and an adjustment comes with a reason that is not blank.
pub validate_params-ok_iff : (p : CalculatorParams) → (validate_params p ≡ ok tt) ↔ IsAccepted p
validate_params-ok_iff p = (validate_params-IsAccepted p, validate_params_of_IsAccepted p)
