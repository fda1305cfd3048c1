-- ===== src/Journal/Posting/Hash.antt =====
-- The canonical payload of a journal and its hash: apps/api/internal/platformfinance/journal_hash.go.
use lapangan_go.Base.{
  ℕ, suc, zero, ◌+◌, ◌/◌, ◌%◌, ◌≡◌, ◌≢◌, ◌<◌, refl, sym, ap, arith, Bool, true, false, List, [],
  ◌∷◌, map, Option, none, some, Result, ok, err, Text, text, text_lt, ltb, ℤ, pos, negsuc,
  less_by_text, sort_by, Permuted, IsWeakOrder, less_by_text-IsWeakOrder, less_by_text-connected,
  sort_by-invariant, text_lt-asym, text_lt-cotrans, text_lt-connected, All, perm_nil, perm_cons,
  perm_swap, perm_trans,
}
use lapangan_go.Journal.Types.{
  JournalSide, debit, credit, other, JournalError, payload_hash, PostJournalEntry,
  PostJournalParams,
}

-- strconv.FormatInt(n, 10): the digits of a number, the last of them in front of `tail`. A number
-- has no more digits than it counts, so that n + 1 rounds are enough.
unfoldable pub digits : ℕ → ℕ → Text → Text
digits zero n tail = tail
digits (suc rounds) n tail = elim (ltb n 10) [
  | true ↦ (48 + n) ∷ tail
  | false ↦ digits rounds (n / 10) ((48 + n % 10) ∷ tail)
]

-- More rounds give the same digits.
pub digits-enough : (r r' n : ℕ) (tail : Text) → n < r → n < r' → digits r n tail ≡ digits r' n tail
unfolding digits
digits-enough zero r' n tail h k = absurd (omega arith)
digits-enough (suc r) zero n tail h k = absurd (omega arith)
digits-enough (suc r) (suc r') n tail h k =
    ground (arith, digits-enough r r' (n / 10) ((48 + n % 10) ∷ tail))

unfoldable pub format_int : ℤ → Text
unfolding digits
format_int (pos n) = digits (suc n) n []
format_int (negsuc n) = 45 ∷ digits (suc (suc n)) (suc n) []

abbrev pub CanonicalJournalMetadata : Type 0
CanonicalJournalMetadata = Text × Text

pub record CanonicalJournalEntry : Type 0 where
  pub account_code : Text
  pub owner_profile_id : Option Text
  pub side : Text
  pub amount_rupiah : Text

pub record CanonicalJournalPayloadV1 : Type 0 where
  pub version : Text
  pub event_key : Text
  pub event_type : Text
  pub booking_id : Option Text
  pub owner_profile_id : Option Text
  pub venue_id : Option Text
  pub currency : Text
  pub effective_at : Text
  pub created_by_user_id : Option Text
  pub description : Option Text
  pub metadata : List CanonicalJournalMetadata
  pub entries : List CanonicalJournalEntry
  pub reverses_journal_id : Option Text
  pub reversal_reason : Option Text

abbrev pub optional_canonical_value : Option Text → Text
optional_canonical_value none = []
optional_canonical_value (some value) = value

-- `string(entry.Side)`
abbrev pub side_text : JournalSide → Text
side_text debit = text "DEBIT"
side_text credit = text "CREDIT"
side_text (other s) = s

abbrev pub canonical_entry : PostJournalEntry → CanonicalJournalEntry
canonical_entry e = record {
  account_code = e.account_code;
  owner_profile_id = e.owner_profile_id;
  side = side_text e.side;
  amount_rupiah = format_int e.amount_rupiah;
}

abbrev pub metadata_less : CanonicalJournalMetadata → CanonicalJournalMetadata → Bool
metadata_less m n = text_lt m.0 n.0

-- The order of the entries, in which the amounts are compared as texts.
abbrev amount_less : CanonicalJournalEntry → CanonicalJournalEntry → Bool
amount_less e f = text_lt e.amount_rupiah f.amount_rupiah

abbrev side_less : CanonicalJournalEntry → CanonicalJournalEntry → Bool
side_less = less_by_text (λ e. e.side) amount_less

abbrev owner_less : CanonicalJournalEntry → CanonicalJournalEntry → Bool
owner_less = less_by_text (λ e. optional_canonical_value e.owner_profile_id) side_less

abbrev pub canonical_entry_less : CanonicalJournalEntry → CanonicalJournalEntry → Bool
canonical_entry_less = less_by_text (λ e. e.account_code) owner_less

abbrev pub journal_currency_idr : Text
journal_currency_idr = text "IDR"

abbrev pub journal_payload_hash_version_v1 : Text
journal_payload_hash_version_v1 = text "JOURNAL_PAYLOAD_V1"

-- What the journal takes from Go's library and from the package uuid: uuid.Parse with String, the
-- format of an instant in UTC, the hash of a payload's JSON in hex, if it can be encoded.
pub record JournalRuntime : Type 0 where
  pub parse_uuid : Text → Option Text
  pub format_instant : ℕ → Text
  pub digest : CanonicalJournalPayloadV1 → Option Text

module _ (runtime : JournalRuntime) where
  unfoldable pub canonical_payload :
      PostJournalParams → Option Text → Option Text → CanonicalJournalPayloadV1
  canonical_payload p reverses_journal_id reversal_reason = record {
    version = journal_payload_hash_version_v1;
    event_key = p.event_key;
    event_type = p.event_type;
    booking_id = p.booking_id;
    owner_profile_id = p.owner_profile_id;
    venue_id = p.venue_id;
    currency = journal_currency_idr;
    effective_at = runtime.format_instant p.effective_at;
    created_by_user_id = p.created_by_user_id;
    description = p.description;
    metadata = sort_by metadata_less p.metadata;
    entries = sort_by canonical_entry_less (map canonical_entry p.entries);
    reverses_journal_id = reverses_journal_id;
    reversal_reason = reversal_reason;
  }

  abbrev pub hash_payload : CanonicalJournalPayloadV1 → Result JournalError Text
  hash_payload payload = elim (runtime.digest payload) [
    | none ↦ err payload_hash
    | some hash ↦ ok hash
  ]

  unfoldable pub hash_journal_payload_v1_with_reversal :
      PostJournalParams → Option Text → Option Text → Result JournalError Text
  unfolding canonical_payload
  hash_journal_payload_v1_with_reversal p reverses_journal_id reversal_reason =
      hash_payload (canonical_payload p reverses_journal_id reversal_reason)

  unfoldable pub hash_journal_payload_v1 : PostJournalParams → Result JournalError Text
  unfolding hash_journal_payload_v1_with_reversal
  hash_journal_payload_v1 p = hash_journal_payload_v1_with_reversal p none none

-- An owner that is given has a name, as every canonical UUID has.
abbrev pub HasNamedOwner : PostJournalEntry → Type 0
HasNamedOwner e = e.owner_profile_id ≢ some []

abbrev IsNamed : CanonicalJournalEntry → Type 0
IsNamed e = e.owner_profile_id ≢ some []

owner_named :
    (o p : Option Text)
    → o ≢ some []
    → p ≢ some []
    → optional_canonical_value o ≡ optional_canonical_value p
    → o ≡ p
owner_named none none h k e = refl
owner_named none (some p) h k e = absurd (k (ap some (sym e)))
owner_named (some o) none h k e = absurd (h (ap some e))
owner_named (some o) (some p) h k e = ap some e

canonical_entry_less-IsWeakOrder : IsWeakOrder canonical_entry_less
canonical_entry_less-IsWeakOrder = less_by_text-IsWeakOrder _ _ (
    less_by_text-IsWeakOrder _ _ (
      less_by_text-IsWeakOrder _ _ (record {
        asym = λ e f h. text_lt-asym e.amount_rupiah f.amount_rupiah h;
        cotrans = λ e f g h k. text_lt-cotrans e.amount_rupiah f.amount_rupiah g.amount_rupiah h k;
      })))

canonical_entry_less-connected :
    (e f : CanonicalJournalEntry)
    → IsNamed e
    → IsNamed f
    → canonical_entry_less e f ≡ false
    → canonical_entry_less f e ≡ false
    → e ≡ f
canonical_entry_less-connected e f he hf h k =
    let code =
      less_by_text-connected (λ (e : CanonicalJournalEntry). e.account_code) owner_less e f h k in
    let owner =
      less_by_text-connected
        (λ (e : CanonicalJournalEntry). optional_canonical_value e.owner_profile_id) side_less e f
        code.1 code.2 in
    let side =
      less_by_text-connected (λ (e : CanonicalJournalEntry). e.side) amount_less e f owner.1
        owner.2 in
    ground (
      arith,
      code.0,
      side.0,
      text_lt-connected e.amount_rupiah f.amount_rupiah side.1 side.2,
      owner_named e.owner_profile_id f.owner_profile_id he hf owner.0,
    )

map-Permuted :
    {xs ys : List PostJournalEntry}
    → Permuted xs ys
    → Permuted (map canonical_entry xs) (map canonical_entry ys)
map-Permuted perm_nil = perm_nil
map-Permuted (perm_cons p) = perm_cons (map-Permuted p)
map-Permuted (perm_swap p) = perm_swap (map-Permuted p)
map-Permuted (perm_trans p q) = perm_trans (map-Permuted p) (map-Permuted q)

map-IsNamed :
    (es : List PostJournalEntry) → All HasNamedOwner es → All IsNamed (map canonical_entry es)
map-IsNamed [] h = tt
map-IsNamed (e ∷ es) h = (h.0, map-IsNamed es h.1)

-- The hash of a journal whose entries name their owners does not depend on the order of the
-- entries.
pub hash_journal_payload_v1_with_reversal-unordered :
    (runtime : JournalRuntime) (p : PostJournalParams) (entries : List PostJournalEntry)
    (reversed reason : Option Text)
    → All HasNamedOwner p.entries
    → Permuted p.entries entries
    → hash_journal_payload_v1_with_reversal runtime (record p { entries = entries }) reversed reason
      ≡ hash_journal_payload_v1_with_reversal runtime p reversed reason
unfolding hash_journal_payload_v1_with_reversal canonical_payload
hash_journal_payload_v1_with_reversal-unordered runtime p entries reversed reason named permuted =
    ap
      (λ (es : List CanonicalJournalEntry).
        hash_payload runtime
          (record (canonical_payload runtime p reversed reason) { entries = es }))
      (sym (
        sort_by-invariant IsNamed canonical_entry_less canonical_entry_less-IsWeakOrder
          canonical_entry_less-connected (map-Permuted permuted) (map-IsNamed p.entries named)))
