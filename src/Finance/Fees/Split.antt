-- ===== src/Finance/Fees/Split.antt =====
-- How a successful run of CalculateBookingFees (calculator.go) splits the price between the
-- platform and the owner.
use lapangan_go.Base.{
  ℕ, ◌+◌, ◌⊎◌, inl, inr, true, ◌*◌, ◌≤◌, ◌≡◌, refl, sym, ◌∙◌, >>=-eq-ok, subst, arith,
  if◌then◌else◌, ok, err, ℤ, pos, negsuc, pos_part, ◌+ℤ◌, ◌≤ℤ◌, IsInt64, ltb_ℤ, max_int64,
}
use lapangan_go.Finance.Money.{overflow_detected, invalid_final_booking_price}
use lapangan_go.Finance.Fees.{
  BookingChannel, marketplace_online, owner_walk_in, other, CalculatorParams, CalculatorResult,
  calculate_booking_fees, validate_params, is_known_channel,
}
use lapangan_go.Finance.Fees.Exact.{rounded-le}
use lapangan_go.Finance.Fees.Accepted.{validate_params-ok_iff}
use lapangan_go.Finance.Fees.Reference.{split, calculate_booking_fees-reference}

-- The commission is within half a rupiah of the price times the rate over 10000.
abbrev pub IsShareAt : ℕ → ℕ → ℕ → Type 0
IsShareAt price bps commission =
    (price * bps ≤ 10000 * commission + 5000) × (10000 * commission ≤ price * bps + 5000)

-- The shares of one result for a channel and a rate, over the numbers that its amounts are.
pub record IsSplit (price : ℤ) (channel : BookingChannel) (bps : ℤ) (r : CalculatorResult)
    : Type 0 where
  pub channel_is : (channel ≡ marketplace_online) ⊎ (channel ≡ owner_walk_in)
  pub final_is_price : r.final_booking_price_rupiah ≡ price
  pub charge_is_price : r.customer_charge_amount_rupiah ≡ price
  pub basis_is_price : r.commission_basis_amount_rupiah ≡ price
  pub shares_add : r.commission_amount_rupiah +ℤ r.owner_net_amount_rupiah ≡ price
  pub commission_nonneg : pos 0 ≤ℤ r.commission_amount_rupiah
  pub net_nonneg : pos 0 ≤ℤ r.owner_net_amount_rupiah
  pub online_rate : channel ≡ marketplace_online → r.commission_bps ≡ bps
  pub online_share :
      channel ≡ marketplace_online
      → IsShareAt (pos_part price) (pos_part bps) (pos_part r.commission_amount_rupiah)
  pub walk_in_rate : channel ≡ owner_walk_in → r.commission_bps ≡ pos 0
  pub walk_in_free : channel ≡ owner_walk_in → r.commission_amount_rupiah ≡ pos 0

split-IsSplit :
    (channel : BookingChannel) (b n : ℕ)
    → is_known_channel channel ≡ true
    → b ≤ 3000
    → IsSplit (pos n) channel (pos b) (split channel (pos b) n)
unfolding ◌+ℤ◌
split-IsSplit marketplace_online b n k h = record {
  channel_is = inl refl;
  final_is_price = refl;
  charge_is_price = refl;
  basis_is_price = refl;
  shares_add = ground (arith, rounded-le n b h);
  commission_nonneg = ground arith;
  net_nonneg = ground arith;
  online_rate = λ _. refl;
  online_share = λ _. ground (arith, rounded-le n b h);
  walk_in_rate = λ q. cc;
  walk_in_free = λ q. cc;
}
split-IsSplit owner_walk_in b n k h = record {
  channel_is = inr refl;
  final_is_price = refl;
  charge_is_price = refl;
  basis_is_price = refl;
  shares_add = ground (arith, rounded-le n 0);
  commission_nonneg = ground arith;
  net_nonneg = ground arith;
  online_rate = λ q. cc;
  online_share = λ q. cc;
  walk_in_rate = λ _. refl;
  walk_in_free = λ _. ground (arith, rounded-le n 0);
}
split-IsSplit (other t) b n k h = cc

-- The reference's last step, by cases on the sum.
settled-IsSplit :
    (channel : BookingChannel) (bps total : ℤ) (r : CalculatorResult)
    → is_known_channel channel ≡ true
    → pos 0 ≤ℤ bps
    → bps ≤ℤ pos 3000
    → (if ltb_ℤ max_int64 total
        then err overflow_detected
        else if ltb_ℤ total (pos 0)
        then err invalid_final_booking_price
        else ok (split channel bps (pos_part total)))
      ≡ ok r
    → IsSplit total channel bps r
settled-IsSplit channel (pos b) (pos n) r known low high h =
    subst (IsSplit (pos n) channel (pos b)) settled (split-IsSplit channel b n known (omega arith))
  where
    settled : split channel (pos b) n ≡ r
    settled = ground arith
settled-IsSplit channel (pos b) (negsuc n) r known low high h = ground arith
settled-IsSplit channel (negsuc b) total r known low high h = absurd (omega arith)

-- A successful calculation is one for an online or a walk-in booking, charges exactly the sum of
-- price and adjustment, and splits it without remainder into a commission and a net amount for the
-- owner, neither of them negative. An online booking is billed at the rate of the parameters, and
-- its commission is within half a rupiah of the sum times that rate over 10000; a walk-in booking
-- is billed at the rate 0 and pays no commission.
pub calculate_booking_fees-IsSplit :
    (p : CalculatorParams) (r : CalculatorResult)
    → IsInt64 p.original_price_rupiah
    → IsInt64 p.owner_price_adjustment_rupiah
    → calculate_booking_fees p ≡ ok r
    → IsSplit
        (p.original_price_rupiah +ℤ p.owner_price_adjustment_rupiah)
        p.booking_channel
        p.commission_bps
        r
calculate_booking_fees-IsSplit p r ho ha h =
    let result = sym (calculate_booking_fees-reference p ho ha) ∙ h in
    let (_, valid, settled) = >>=-eq-ok (validate_params p) _ result in
    let accepted = (validate_params-ok_iff p).0 valid in
    settled-IsSplit p.booking_channel p.commission_bps
      (p.original_price_rupiah +ℤ p.owner_price_adjustment_rupiah) r accepted.channel_known
      accepted.bps_nonneg accepted.bps_le settled
