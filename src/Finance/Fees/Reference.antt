-- ===== src/Finance/Fees/Reference.antt =====
-- CalculateBookingFees of calculator.go equals its reference over unbounded integers.
use lapangan_go.Base.{
  ℕ, ◌-◌, ◌≤◌, ◌≡◌, refl, arith, if◌then◌else◌, Result, ok, err, ◌>>=◌, ◌>>◌, ℤ, pos, negsuc,
  pos_part, neg_part, ◌+ℤ◌, ◌-ℤ◌, ◌≤ℤ◌, IsInt64, ltb_ℤ, max_int64,
}
use lapangan_go.Finance.Money.{
  FeeError, overflow_detected, invalid_final_booking_price, checked_add_int64-exact,
  checked_sub_int64-exact, checked_add_int64, checked_sub_int64, exact,
}
use lapangan_go.Finance.Fees.{
  settle, BookingChannel, marketplace_online, owner_walk_in, other, CalculatorParams,
  CalculatorResult, validate_params, effective_bps, calculate_booking_fees,
}
use lapangan_go.Finance.Fees.Rounding.{rounded}
use lapangan_go.Finance.Fees.Exact.{commission_amount-rounded, rounded-le}
use lapangan_go.Finance.Fees.Accepted.{validate_params-ok_iff}

-- The calculation without machine arithmetic: the reference.
abbrev pub split : BookingChannel → ℤ → ℕ → CalculatorResult
split channel bps n =
    let bps' = effective_bps channel bps in
    let commission = rounded n (pos_part bps') in
    record {
      final_booking_price_rupiah = pos n;
      customer_charge_amount_rupiah = pos n;
      commission_basis_amount_rupiah = pos n;
      commission_bps = bps';
      commission_amount_rupiah = pos commission;
      owner_net_amount_rupiah = pos (n - commission);
    }

abbrev pub reference_fees : CalculatorParams → Result FeeError CalculatorResult
reference_fees p =
    let total = p.original_price_rupiah +ℤ p.owner_price_adjustment_rupiah in
    validate_params p
    >> (if ltb_ℤ max_int64 total
        then err overflow_detected
        else if ltb_ℤ total (pos 0)
        then err invalid_final_booking_price
        else ok (split p.booking_channel p.commission_bps (pos_part total)))

effective_bps-bounds :
    (channel : BookingChannel) (b : ℕ)
    → b ≤ 3000
    → (m : ℕ) × (effective_bps channel (pos b) ≡ pos m) × (m ≤ 3000)
effective_bps-bounds marketplace_online b h = (b, refl, h)
effective_bps-bounds owner_walk_in b h = (0, refl, omega arith)
effective_bps-bounds (other t) b h = (b, refl, h)

charge-eq : (n : ℕ) → n ≤ 9223372036854775807 → checked_add_int64 (pos n) (pos 0) ≡ ok (pos n)
unfolding ◌+ℤ◌
charge-eq n h =
    rw (checked_add_int64-exact (pos n) (pos 0) (omega arith) (omega arith)) (ground arith)

net-eq :
    (n c : ℕ)
    → n ≤ 9223372036854775807
    → c ≤ n
    → checked_sub_int64 (pos n) (pos c) ≡ ok (pos (n - c))
unfolding ◌-ℤ◌
net-eq n c h k =
    rw (checked_sub_int64-exact (pos n) (pos c) (omega arith) (omega arith)) (ground arith)

settle-split :
    (channel : BookingChannel) (b n : ℕ)
    → b ≤ 3000
    → n ≤ 9223372036854775807
    → settle channel (pos b) (pos 0) (pos n) ≡ ok (split channel (pos b) n)
unfolding settle
settle-split channel b n hb hn =
    let (m, e, hm) = effective_bps-bounds channel b hb in
    rw
      (
        e,
        commission_amount-rounded n m hn hm,
        charge-eq n hn,
        net-eq n (rounded n m) hn (rounded-le n m hm),
      )
      (ground arith)

settle-negative :
    (channel : BookingChannel) (bps : ℤ) (n : ℕ)
    → settle channel bps (pos 0) (negsuc n) ≡ err invalid_final_booking_price
unfolding settle
settle-negative channel bps n = ground arith

-- What the code does with the sum once the parameters are let through.
settle-total :
    (channel : BookingChannel) (bps total : ℤ)
    → pos 0 ≤ℤ bps
    → bps ≤ℤ pos 3000
    → neg_part total ≤ 9223372036854775808
    → (exact total >>= settle channel bps (pos 0)) ≡ (
        if ltb_ℤ max_int64 total
        then err overflow_detected
        else if ltb_ℤ total (pos 0)
        then err invalid_final_booking_price
        else ok (split channel bps (pos_part total)))
settle-total channel (pos b) (pos n) low high h = ground (arith, settle-split channel b n)
settle-total channel (pos b) (negsuc n) low high h =
    ground (arith, settle-negative channel (pos b) n)
settle-total channel (negsuc b) total low high h = absurd (omega arith)

total-neg_part : (a b : ℤ) → pos 0 ≤ℤ a → IsInt64 b → neg_part (a +ℤ b) ≤ 9223372036854775808
unfolding ◌+ℤ◌
total-neg_part a b ha hb = ground arith

-- For every 64-bit price and adjustment the calculator returns what the reference returns.
pub calculate_booking_fees-reference :
    (p : CalculatorParams)
    → IsInt64 p.original_price_rupiah
    → IsInt64 p.owner_price_adjustment_rupiah
    → calculate_booking_fees p ≡ reference_fees p
calculate_booking_fees-reference p ho ha = go (validate_params p) refl
  where
    go :
        (r : Result FeeError (Unit {0}))
        → validate_params p ≡ r
        → calculate_booking_fees p ≡ reference_fees p
    go (err e) refused = unfold calculate_booking_fees in rw (refused)
    go (ok _) valid =
        let accepted = (validate_params-ok_iff p).0 valid in
        unfold calculate_booking_fees in
        rw
          (
            valid,
            checked_add_int64-exact p.original_price_rupiah p.owner_price_adjustment_rupiah ho ha,
            accepted.fee_zero,
          )
          (settle-total p.booking_channel p.commission_bps
            (p.original_price_rupiah +ℤ p.owner_price_adjustment_rupiah) accepted.bps_nonneg
            accepted.bps_le
            (total-neg_part p.original_price_rupiah p.owner_price_adjustment_rupiah
              accepted.price_nonneg ha))
