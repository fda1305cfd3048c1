-- ===== src/Finance/Scenarios.antt =====
-- Runs of the calculator of calculator.go.
use lapangan_go.Base.{
  ◌*◌, ◌+ℤ◌, ◌≡◌, refl, ◌↔◌, arith, inl, inr, ok, err, [], pos, negsuc, text, Text,
}
use lapangan_go.Base
use lapangan_go.Finance.Money.{
  checked_add_int64, checked_sub_int64, checked_mul_non_negative_int64, overflow_detected,
  checked_add_int64-exact, checked_sub_int64-exact, checked_mul_non_negative_int64-exact,
  price_adjustment_reason_required,
}
use lapangan_go.Finance.Fees.{
  settle, CalculatorParams, CalculatorResult, marketplace_online, calculate_booking_fees,
  commission_amount, validate_params,
}
use lapangan_go.Finance.Fees.Exact.{commission_amount-rounded}
use lapangan_go.Finance.Fees.Accepted.{IsAccepted, validate_params-ok_iff}
use lapangan_go.Finance.Fees.Reference.{reference_fees, calculate_booking_fees-reference}
use lapangan_go.Finance.Fees.Split.{IsSplit, calculate_booking_fees-IsSplit}

-- An online booking of 150,005 rupiah at 5 percent, with a discount of 50,000.
abbrev online : CalculatorParams
online = record {
  original_price_rupiah = pos 150005;
  owner_price_adjustment_rupiah = negsuc 49999;
  price_adjustment_reason = text "PROMO:HEMAT";
  commission_bps = pos 500;
  booking_channel = marketplace_online;
  customer_service_fee_rupiah = pos 0;
}

abbrev online_result : CalculatorResult
online_result = record {
  final_booking_price_rupiah = pos 100005;
  customer_charge_amount_rupiah = pos 100005;
  commission_basis_amount_rupiah = pos 100005;
  commission_bps = pos 500;
  commission_amount_rupiah = pos 5000;
  owner_net_amount_rupiah = pos 95005;
}

online_run : calculate_booking_fees online ≡ ok online_result
unfolding calculate_booking_fees settle validate_params Base.trim_space Base.text_eq
    checked_add_int64 checked_sub_int64 checked_mul_non_negative_int64 commission_amount Base.wrap64
    Base.add64 Base.sub64 Base.neg64 Base.mul64 Base.quot Base.rem Base.◌+ℤ◌ Base.◌-ℤ◌ Base.◌*ℤ◌
online_run = refl

blank_reason_refused :
    calculate_booking_fees (record online { price_adjustment_reason = text "  " })
    ≡ err price_adjustment_reason_required
unfolding calculate_booking_fees validate_params Base.trim_space Base.text_eq
blank_reason_refused = refl

calculate_booking_fees-reference_example : calculate_booking_fees online ≡ reference_fees online
calculate_booking_fees-reference_example =
    calculate_booking_fees-reference online (omega arith) (omega arith)

calculate_booking_fees-IsSplit_example :
    IsSplit (pos 150005 +ℤ negsuc 49999) marketplace_online (pos 500) online_result
calculate_booking_fees-IsSplit_example =
    calculate_booking_fees-IsSplit online online_result (omega arith) (omega arith) online_run

validate_params-ok_iff_example : (validate_params online ≡ ok tt) ↔ IsAccepted online
validate_params-ok_iff_example = validate_params-ok_iff online

commission_amount-rounded_example : commission_amount (pos 100005) (pos 500) ≡ ok (pos 5000)
commission_amount-rounded_example = commission_amount-rounded 100005 500 (omega arith) (omega arith)

checked_add_int64-exact_example :
    checked_add_int64 (pos 9223372036854775807) (pos 1) ≡ err overflow_detected
unfolding Base.◌+ℤ◌
checked_add_int64-exact_example =
    checked_add_int64-exact (pos 9223372036854775807) (pos 1) (omega arith) (omega arith)

checked_sub_int64-exact_example :
    checked_sub_int64 (negsuc 0) (negsuc 9223372036854775807) ≡ ok (pos 9223372036854775807)
unfolding Base.◌-ℤ◌
checked_sub_int64-exact_example =
    checked_sub_int64-exact (negsuc 0) (negsuc 9223372036854775807) (omega arith) (omega arith)

checked_mul_non_negative_int64-exact_example :
    checked_mul_non_negative_int64 (pos 3037000500) (pos 3037000500) ≡ err overflow_detected
checked_mul_non_negative_int64-exact_example =
    checked_mul_non_negative_int64-exact 3037000500 3037000500 (omega arith) (omega arith)
