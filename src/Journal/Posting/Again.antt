-- ===== src/Journal/Posting/Again.antt =====
-- A journal that was posted and is posted again: PostJournal of journal_service.go with
-- replayExistingJournal of journal_replay.go.
use lapangan_go.Base.{
  ℕ, suc, ◌≤◌, ◌≡◌, ◌≢◌, refl, subst, ◌∙◌, arith, Bool, true, false, ◌&&◌, List, [], ◌∷◌, map, all,
  All, All-map, Option, none, some, is_some, ok, Text, text_eq, text_eq_refl, find_first,
  find_first-append, Permuted, All-Permuted, inl, inr, perm_nil, perm_cons, perm_swap, perm_trans,
  Option-cases, none-ne-some,
}
use lapangan_go.Journal.Types.{
  PostedJournalEntry, PostJournalEntry, PostJournalParams, JournalAccountDefinition, Metadata,
}
use lapangan_go.Journal.Validate.{
  validate_and_normalize_journal, validate_dimensions, canonical_optional_uuid,
}
use lapangan_go.Journal.Validate.Totals.{HasInt64Amounts, normalize_entry-IsNormalized}
use lapangan_go.Journal.Validate.Stable.{IsCanonicaliser}
use lapangan_go.Journal.Validate.Normal.{validate_and_normalize_journal_internal-IsRun}
use lapangan_go.Journal.Validate.Unordered.{
  collected-IsNormal, validate_and_normalize_journal_internal-unordered,
  validate_dimensions-unordered,
}
use lapangan_go.Journal.Reversal.{to_post_entry}
use lapangan_go.Journal.Reversal.Request.{post_journal_params_from_posted_journal}
use lapangan_go.Journal.Posting.Hash.{
  JournalRuntime, HasNamedOwner, hash_journal_payload_v1,
  hash_journal_payload_v1_with_reversal-unordered,
}
use lapangan_go.Journal.Posting.Store.{
  LoadedJournal, PreparedJournal, JournalRow, JournalStore, JournalTx, Database, has_event_key,
  has_id,
}
use lapangan_go.Journal.Posting.Repository.{
  posted_of, posted_entry, load_row, load_journal_optional, load_journal, get_journal_by_event_key,
}
use lapangan_go.Journal.Posting.Replay.{
  replay_existing_journal, is_plain, has_own_entries, with_sorted_entries,
}
use lapangan_go.Journal.Posting.Service.{prepare_journal, prepare_entries}
use lapangan_go.Journal.Posting.Appended.{with_journal}
use lapangan_go.Journal.Posting.Loading.{loaded_of}
use lapangan_go.Journal.Posting.Ledger.{IsLedger, IsPosting, ledger_of}
use lapangan_go.Journal.Posting.Preserved.{new_ledger, new_back, new_entries}
use lapangan_go.Journal.Posting.Books.{IsOrdering, collected_int64}

-- A database that answers every statement, and reads metadata as they were written.
pub record IsQuiet (db : Database) : Type 0 where
  pub accounts_read : (s : JournalStore) → db.account_fault s ≡ none
  pub journals_read : (s : JournalStore) → db.journal_fault s ≡ none
  pub ledger_read : (s : JournalStore) → db.ledger_fault s ≡ none
  pub rows_allowed : (s : JournalStore) (j : PreparedJournal) → db.row_fault s j ≡ none
  pub metadata_read : (m : Metadata) → db.read_metadata m ≡ some m

-- uuid.Parse never gives the empty text.
abbrev pub IsNaming : (Text → Option Text) → Type 0
IsNaming parse_uuid = (s : Text) → parse_uuid s ≢ some []

abbrev pub HasUuids : (Text → Option Text) → JournalTx → Type 0
HasUuids parse_uuid tx = (n : ℕ) → is_some (parse_uuid (tx.new_uuid n)) ≡ true

back-Permuted :
    {xs ys : List PostedJournalEntry}
    → Permuted xs ys
    → Permuted (map to_post_entry xs) (map to_post_entry ys)
back-Permuted perm_nil = perm_nil
back-Permuted (perm_cons p) = perm_cons (back-Permuted p)
back-Permuted (perm_swap p) = perm_swap (back-Permuted p)
back-Permuted (perm_trans p q) = perm_trans (back-Permuted p) (back-Permuted q)

named :
    (parse_uuid : Text → Option Text)
    → IsNaming parse_uuid
    → (o : Option Text) → canonical_optional_uuid parse_uuid o ≡ ok o
    → o ≢ some []
unfolding canonical_optional_uuid
named parse_uuid naming none h e = none-ne-some e
named parse_uuid naming (some t) h e = elim (Option-cases (parse_uuid t)) [
  | inl p ↦ absurd (nothing p)
  | inr (c, p) ↦ naming t (p ∙ same c p ∙ e)
]
  where
    nothing : parse_uuid t ≡ none → ⊥
    nothing p = ground (arith, h, p)

    same : (c : Text) → parse_uuid t ≡ some c → some c ≡ some t
    same c p = ground (arith, h, p)

all-All :
    (p : PostedJournalEntry → Bool) (es : List PostedJournalEntry)
    → All (λ e. p e ≡ true) es
    → all p es ≡ true
all-All p [] h = refl
all-All p (e ∷ es) h = ground (arith, h.0, all-All p es h.1)

-- The entries are written under the identity of their journal, and with UUIDs.
own :
    (parse_uuid : Text → Option Text) (tx : JournalTx) (id : Text) (n : ℕ)
    (es : List PostJournalEntry)
    → HasUuids parse_uuid tx
    → All
        (λ (e : PostedJournalEntry). (text_eq e.journal_id id && is_some (parse_uuid e.id)) ≡ true)
        (map (posted_entry tx id) (prepare_entries tx.new_uuid n es))
unfolding prepare_entries
own parse_uuid tx id n [] h = tt
own parse_uuid tx id n (e ∷ es) h =
    (rw (text_eq_refl id, h n) refl, own parse_uuid tx id (suc n) es h)

module _ (runtime : JournalRuntime) (db : Database) (quiet : IsQuiet db) (ordering : IsOrdering db)
    (tx later : JournalTx) (n : PostJournalParams) (hash : Text) (s : JournalStore) where
  abbrev pub posted : PreparedJournal
  posted = prepare_journal tx n hash none none

  abbrev pub posted_row : JournalRow
  posted_row = record { journal = posted_of tx posted; created_txid = tx.txid }

  abbrev pub after : JournalStore
  after = with_journal db tx posted s

  -- The journal as a later transaction loads it.
  abbrev pub again : LoadedJournal
  again = loaded_of db later after posted_row n.metadata

  row_again : load_row db later after posted_row ≡ ok again
  unfolding load_row prepare_journal
  row_again = rw (load_row, quiet.metadata_read n.metadata, quiet.ledger_read after) refl

  pub loaded_again :
      find_first (has_event_key n.event_key) s.journals ≡ none
      → get_journal_by_event_key db later n.event_key after ≡ ok again
  unfolding get_journal_by_event_key load_journal load_journal_optional prepare_journal
  loaded_again free =
      rw
        (
          quiet.journals_read after,
          find_first-append (has_event_key n.event_key) s.journals posted_row free
              (text_eq_refl n.event_key),
          row_again,
        )
        refl

  is_plain-loaded : is_plain again ≡ true
  unfolding is_plain text_eq prepare_journal
  is_plain-loaded = refl

  module _ (ledger : IsLedger s) (posting : IsPosting posted tx.new_uuid n.entries)
      (free : find_first (has_id posted.id) s.journals ≡ none) where
    entries_again : Permuted (new_entries tx posted n.entries posting) again.journal.entries
    entries_again =
        subst (λ l. Permuted l (db.order_entries (ledger_of posted.id after.ledger)))
          (new_ledger tx posted n.entries posting s ledger free)
          (ordering.ordered (ledger_of posted.id after.ledger))

    requested_again : Permuted n.entries (map to_post_entry again.journal.entries)
    requested_again =
        subst (λ l. Permuted l (map to_post_entry again.journal.entries))
          (new_back tx posted n.entries posting) (back-Permuted entries_again)

    own_again : HasUuids runtime.parse_uuid tx → has_own_entries runtime again.journal ≡ true
    unfolding has_own_entries prepare_journal prepare_entries
    own_again ids =
        rw
          (
            ids 0,
            all-All _ again.journal.entries (
                All-Permuted _ entries_again (own runtime.parse_uuid tx posted.id 1 n.entries ids)),
          )
          refl

    hashed_again :
        All HasNamedOwner n.entries
        → hash_journal_payload_v1 runtime
            (record n { entries = map to_post_entry again.journal.entries })
          ≡ hash_journal_payload_v1 runtime n
    unfolding hash_journal_payload_v1
    hashed_again owners =
        hash_journal_payload_v1_with_reversal-unordered runtime n
          (map to_post_entry again.journal.entries) none none owners requested_again

    -- The stored journal is answered.
    pub replayed_again :
        (canonical : IsCanonicaliser runtime.parse_uuid) (naming : IsNaming runtime.parse_uuid)
        (p : PostJournalParams) (codes : List Text) (definitions : List JournalAccountDefinition)
        → HasUuids runtime.parse_uuid tx
        → 1000 ≤ p.effective_at
        → HasInt64Amounts p.entries
        → validate_and_normalize_journal runtime.parse_uuid p ≡ ok (n, codes)
        → validate_dimensions n.owner_profile_id n.entries definitions ≡ ok tt
        → hash_journal_payload_v1 runtime n ≡ ok hash
        → replay_existing_journal runtime again n hash definitions
          ≡ ok (with_sorted_entries again.journal)
    unfolding replay_existing_journal post_journal_params_from_posted_journal prepare_journal
    replayed_again canonical naming p codes definitions ids late hs valid dimensions hashed =
        let run =
          validate_and_normalize_journal_internal-IsRun runtime.parse_uuid false p (n, codes)
            valid in
        let ns = collected_int64 runtime.parse_uuid p.entries _ _ hs run.collected in
        let normal = collected-IsNormal runtime.parse_uuid canonical p.entries _ _ run.collected in
        let owners =
          All-map _ HasNamedOwner n.entries
            (λ e h.
              named runtime.parse_uuid naming e.owner_profile_id
                (normalize_entry-IsNormalized runtime.parse_uuid e e h).owner_canonical)
            normal in
        let es = map to_post_entry again.journal.entries in
        rw
          (
            text_eq_refl hash,
            is_plain-loaded,
            own_again ids,
            validate_and_normalize_journal_internal-unordered runtime.parse_uuid canonical false p n
                codes es late hs ns valid requested_again,
            text_eq_refl n.event_key,
            text_eq_refl n.event_type,
            validate_dimensions-unordered n.owner_profile_id n.entries es definitions
                requested_again dimensions,
            hashed_again owners ∙ hashed,
            text_eq_refl hash,
          )
          refl
