-- ===== src/Journal/Reversal/Request.antt =====
-- The request for a reversal and the request that a stored journal came from:
-- normalizeReverseJournalParams, postJournalParamsFromPostedJournal and
-- journalAccountCodesFromPostedEntries of apps/api/internal/platformfinance/journal_reversal.go.
use lapangan_go.Base.{
  ◌≡◌, refl, ap, subst, ◌≤◌, arith, Bool, false, not, ◌||◌, List, [], map, Option, none, some,
  Result, ok, err, ◌>>=◌, ◌>>◌, fail_if, bind_ok, ok-injective, err-ne-ok, Text, text_eq,
  trim_space, byte_len, ltb, ◌==◌, truncate_us,
}
use lapangan_go.Journal.Types.{
  JournalError, invalid_reference, invalid_request, ReverseJournalParams, PostedJournal,
  PostedJournalEntry, PostJournalParams,
}
use lapangan_go.Journal.Patterns.{validate_journal_metadata}
use lapangan_go.Journal.Validate.{canonical_optional_uuid, account_codes}
use lapangan_go.Journal.Validate.Stable.{IsCanonicaliser, reference_stable}
use lapangan_go.Journal.Reversal.{to_post_entry}

unfoldable pub post_journal_params_from_posted_journal : PostedJournal → PostJournalParams
post_journal_params_from_posted_journal j = record {
  event_key = j.event_key;
  event_type = j.event_type;
  booking_id = j.booking_id;
  owner_profile_id = j.owner_profile_id;
  venue_id = j.venue_id;
  effective_at = j.effective_at;
  created_by_user_id = j.created_by_user_id;
  description = j.description;
  metadata = j.metadata;
  entries = map to_post_entry j.entries;
}

unfoldable pub journal_account_codes_from_posted_entries : List PostedJournalEntry → List Text
journal_account_codes_from_posted_entries entries = account_codes (map to_post_entry entries)

abbrev pub referenced : Option Text → Result JournalError Text
referenced none = err invalid_reference
referenced (some id) = ok id

pub referenced-eq-ok : (o : Option Text) (c : Text) → referenced o ≡ ok c → o ≡ some c
referenced-eq-ok none c h = absurd (err-ne-ok h)
referenced-eq-ok (some d) c h = ap some (ok-injective h)

abbrev pub is_bad_reason : Text → Bool
is_bad_reason reason =
    text_eq reason [] || not (text_eq (trim_space reason) reason) || ltb 500 (byte_len reason)

module _ (parse_uuid : Text → Option Text) where
  unfoldable pub normalize_reverse_journal_params :
      ReverseJournalParams → Result JournalError ReverseJournalParams
  normalize_reverse_journal_params p = do
    id ← referenced (parse_uuid p.journal_id)
    fail_if (p.effective_at == 0) invalid_request
    fail_if (is_bad_reason p.reason) invalid_request
    validate_journal_metadata p.metadata
    creator ← canonical_optional_uuid parse_uuid p.created_by_user_id
    ok (record p {
      journal_id = id;
      effective_at = truncate_us p.effective_at;
      created_by_user_id = creator;
    })

  module _ (canonical : IsCanonicaliser parse_uuid) where
    -- For an instant of a microsecond or more after the zero time, a request for a reversal that is
    -- let through is let through again, with itself as its normal form.
    pub normalize_reverse_journal_params-stable :
        (p r : ReverseJournalParams)
        → 1000 ≤ p.effective_at
        → normalize_reverse_journal_params p ≡ ok r
        → normalize_reverse_journal_params r ≡ ok r
    unfolding normalize_reverse_journal_params
    normalize_reverse_journal_params-stable p r late h =
        bind_ok (referenced (parse_uuid p.journal_id)) h λ id h₀ k₀.
          bind_ok (fail_if (p.effective_at == 0) invalid_request) k₀ λ _ h₁ k₁.
            bind_ok (fail_if (is_bad_reason p.reason) invalid_request) k₁ λ _ h₂ k₂.
              bind_ok (validate_journal_metadata p.metadata) k₂ λ u h₃ k₃.
                bind_ok (canonical_optional_uuid parse_uuid p.created_by_user_id) k₃ λ c h₄ k₄.
                  subst (λ s. normalize_reverse_journal_params s ≡ ok s) (ok-injective k₄)
                    (rw
                      (
                        canonical.stable p.journal_id id (referenced-eq-ok _ id h₀),
                        not_zero,
                        h₂,
                        h₃,
                        reference_stable parse_uuid canonical p.created_by_user_id c h₄,
                        same,
                      )
                      refl)
      where
        not_zero : (truncate_us p.effective_at == 0) ≡ false
        not_zero = ground arith

        same : truncate_us (truncate_us p.effective_at) ≡ truncate_us p.effective_at
        same = omega arith
