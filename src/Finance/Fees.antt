-- ===== src/Finance/Fees.antt =====
-- The booking fee calculator: CalculateBookingFees of
-- apps/api/internal/platformfinance/calculator.go.
pub mod Rounding
pub mod Exact
pub mod Accepted
pub mod Reference
pub mod Split
use lapangan_go.Base.{
  Bool, true, false, ◌&&◌, ◌||◌, not, [], if◌then◌else◌, Result, ok, err, ◌>>=◌, ◌>>◌, fail_if, ℤ,
  pos, quot, rem, ltb_ℤ, leb_ℤ, eqb_ℤ, Text, text, text_eq, trim_space,
}
use lapangan_go.Finance.Money.{
  FeeError, invalid_original_price, invalid_final_booking_price, invalid_commission_bps,
  invalid_booking_channel, invalid_customer_service_fee, price_adjustment_reason_required,
  negative_owner_net, checked_add_int64, checked_sub_int64, checked_mul_non_negative_int64,
}

-- A Go string type: `other` is any value outside the two constants.
pub data BookingChannel : Type 0 where
  marketplace_online owner_walk_in : BookingChannel
  other : Text → BookingChannel

pub record CalculatorParams : Type 0 where
  pub original_price_rupiah : ℤ
  pub owner_price_adjustment_rupiah : ℤ
  pub price_adjustment_reason : Text
  pub commission_bps : ℤ
  pub booking_channel : BookingChannel
  pub customer_service_fee_rupiah : ℤ

pub record CalculatorResult : Type 0 where
  pub final_booking_price_rupiah : ℤ
  pub customer_charge_amount_rupiah : ℤ
  pub commission_basis_amount_rupiah : ℤ
  pub commission_bps : ℤ
  pub commission_amount_rupiah : ℤ
  pub owner_net_amount_rupiah : ℤ

abbrev pub is_known_channel : BookingChannel → Bool
is_known_channel marketplace_online = true
is_known_channel owner_walk_in = true
is_known_channel (other _) = false

-- Step 8: a walk-in booking of the owner carries no commission.
abbrev pub effective_bps : BookingChannel → ℤ → ℤ
effective_bps owner_walk_in bps = pos 0
effective_bps _ bps = bps

-- Step 10: the commission by quotient and remainder, so that no product overflows early.
unfoldable pub commission_amount : ℤ → ℤ → Result FeeError ℤ
commission_amount basis bps = do
  whole_product ← checked_mul_non_negative_int64 (quot basis 10000) bps
  remainder_product ← checked_mul_non_negative_int64 (rem basis 10000) bps
  let partial = quot remainder_product 10000
  let rounding_remainder = rem remainder_product 10000
  partial' ←
      if leb_ℤ (pos 5000) rounding_remainder then checked_add_int64 partial (pos 1) else ok partial
  checked_add_int64 whole_product partial'

-- Steps 1 to 5.
unfoldable pub validate_params : CalculatorParams → Result FeeError (Unit {0})
validate_params p = do
  fail_if (ltb_ℤ p.original_price_rupiah (pos 0)) invalid_original_price
  fail_if (ltb_ℤ p.commission_bps (pos 0) || ltb_ℤ (pos 3000) p.commission_bps)
      invalid_commission_bps
  fail_if (not (is_known_channel p.booking_channel)) invalid_booking_channel
  fail_if (not (eqb_ℤ p.customer_service_fee_rupiah (pos 0))) invalid_customer_service_fee
  fail_if
      (not (eqb_ℤ p.owner_price_adjustment_rupiah (pos 0))
        && text_eq (trim_space p.price_adjustment_reason) [])
      price_adjustment_reason_required

-- Steps 7 to 13.
unfoldable pub settle : BookingChannel → ℤ → ℤ → ℤ → Result FeeError CalculatorResult
settle channel bps fee final_price = do
  fail_if (ltb_ℤ final_price (pos 0)) invalid_final_booking_price
  let bps' = effective_bps channel bps
  commission ← commission_amount final_price bps'
  customer_charge ← checked_add_int64 final_price fee
  owner_net ← checked_sub_int64 final_price commission
  fail_if (ltb_ℤ owner_net (pos 0)) negative_owner_net
  ok (record {
    final_booking_price_rupiah = final_price;
    customer_charge_amount_rupiah = customer_charge;
    commission_basis_amount_rupiah = final_price;
    commission_bps = bps';
    commission_amount_rupiah = commission;
    owner_net_amount_rupiah = owner_net;
  })

unfoldable pub calculate_booking_fees : CalculatorParams → Result FeeError CalculatorResult
calculate_booking_fees p = do
  validate_params p
  final_price ← checked_add_int64 p.original_price_rupiah p.owner_price_adjustment_rupiah
  settle p.booking_channel p.commission_bps p.customer_service_fee_rupiah final_price
