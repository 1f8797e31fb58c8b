-- ===== src/Domain/Ledger/Reversal.antt =====
-- `JournalTransaction.reverse` (src/ledgerflow/domain/ledger.py): the mirrored posting.
use Prim.Native.String.{◌++◌ as text_append}
use ledgerflow.Prelude.{
  String, ◌≡◌, ◌≢◌, refl, true, Option, none, some, List, [], ◌∷◌, arith, ◌≤◌, length, All, ap, sym,
  ◌∙◌, suc,
}
use ledgerflow.Exception.{ok, err, ledger_error}
use ledgerflow.Domain.Money.{is_positive}
use ledgerflow.Domain.Ledger.{
  Direction, debit, credit, Entry, Timestamp, JournalTransaction, same_direction, opposite,
  make_entry, reversed, reverse_entries, make_transaction, reverse,
}
use ledgerflow.Domain.Ledger.Balanced.{side_total, IsBalanced, make_transaction_complete}

-- What `Entry.__post_init__` ensures of every entry.
abbrev pub ArePositive : List Entry → Type 0
ArePositive = All (λ e. is_positive e.amount ≡ true)

-- The entry with the direction turned round.
abbrev pub mirror : Entry → Entry
mirror e = record e { direction = opposite e.direction }

abbrev pub mirror_all : List Entry → List Entry
mirror_all [] = []
mirror_all (e ∷ es) = mirror e ∷ mirror_all es

pub reverse_entries-mirror :
    (es : List Entry) → ArePositive es → reverse_entries es ≡ ok (mirror_all es)
unfolding reverse_entries reversed make_entry
reverse_entries-mirror [] h = refl
reverse_entries-mirror (e ∷ es) h = rw (h.0, reverse_entries-mirror es h.1)

pub length-mirror_all : (es : List Entry) → length (mirror_all es) ≡ length es
length-mirror_all [] = refl
length-mirror_all (e ∷ es) = ap suc (length-mirror_all es)

pub same_direction-opposite :
    (d e : Direction) → same_direction (opposite d) e ≡ same_direction d (opposite e)
unfolding opposite
same_direction-opposite debit debit = refl
same_direction-opposite debit credit = refl
same_direction-opposite credit debit = refl
same_direction-opposite credit credit = refl

-- A mirrored posting has on each side what the original has on the other.
pub side_total-mirror_all :
    (d : Direction) (c : String) (es : List Entry)
    → side_total d c (mirror_all es) ≡ side_total (opposite d) c es
side_total-mirror_all d c [] = refl
side_total-mirror_all d c (e ∷ es) =
    rw (same_direction-opposite e.direction d, side_total-mirror_all d c es)

pub mirror_all-IsBalanced : (es : List Entry) → IsBalanced es → IsBalanced (mirror_all es)
unfolding opposite
mirror_all-IsBalanced es h c =
    side_total-mirror_all debit c es ∙ sym (h c) ∙ sym (side_total-mirror_all credit c es)

-- A transaction that is no reversal, with two positive entries or more that balance, is reversed
-- into the transaction that mirrors every entry and names the original, and the mirror balances.
pub reverse_lem :
    (new_id : String) (at : Timestamp) (t : JournalTransaction)
    → t.reverses_id ≡ none
    → at.aware ≡ true
    → 2 ≤ length t.entries
    → ArePositive t.entries
    → IsBalanced t.entries
    → (reverse new_id (some at) t
        ≡ ok (record {
          id = new_id;
          kind = text_append t.kind ".reversal";
          effective_at = at;
          entries = mirror_all t.entries;
          metadata = t.metadata;
          reverses_id = some t.id;
        }))
      × IsBalanced (mirror_all t.entries)
unfolding reverse
reverse_lem new_id at t fresh zone two positive balanced = (
  rw (fresh, reverse_entries-mirror t.entries positive)
      (make_transaction_complete new_id _ at (mirror_all t.entries) t.metadata (some t.id)
        (rw length-mirror_all two) zone (mirror_all-IsBalanced t.entries balanced)),
  mirror_all-IsBalanced t.entries balanced,
)

-- A reversal is never reversed again, whatever its entries.
pub reverse_of_reversal :
    (new_id : String) (at : Option Timestamp) (t : JournalTransaction)
    → t.reverses_id ≢ none
    → reverse new_id at t ≡ err ledger_error
unfolding reverse
reverse_of_reversal new_id at t h = ground arith

-- The entries of a reversal mirror those of the original.
pub reverse-entries :
    (new_id : String) (at : Option Timestamp) (t : JournalTransaction)
    → ArePositive t.entries
    → {r : JournalTransaction} → reverse new_id at t ≡ ok r
    → r.entries ≡ mirror_all t.entries
unfolding reverse make_transaction
reverse-entries new_id at t positive h = ground (arith, reverse_entries-mirror t.entries positive)
