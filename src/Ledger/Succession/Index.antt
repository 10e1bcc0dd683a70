-- ===== src/Ledger/Succession/Index.antt =====
-- The map `byTo` of `BuildKeyTimeline` (kernel/internal/ledger/succession.go), against a search of the rows.
use mathlib.Core.List.{Memᴰ}
use deepaxiom_aura.Base.{
  String, Option, none, some, inl, inr, List, [], ◌∷◌, ◌==◌, string_eq, str_eq_iff, Dict, lookup,
  insert, ◌≡◌, refl, arith, Option-cases, lookup-insert, if◌then◌else◌, beq_refl, Bool-cases, ◌∙◌,
  sym, true, contains, Distinct,
}
use deepaxiom_aura.Ledger.Succession.{SuccessionRow, index_by_to}

-- The first row that hands over to a key.
unfoldable pub find_to : String → List SuccessionRow → Option SuccessionRow
find_to k [] = none
find_to k (rec ∷ recs) =
    let later = find_to k recs in if rec.to_pubkey == k then some rec else later

abbrev pub or_else : Option SuccessionRow → Option SuccessionRow → Option SuccessionRow
or_else (some rec) other = some rec
or_else none other = other

pub find_to_sound :
    (k : String) (recs : List SuccessionRow) (rec : SuccessionRow)
    → find_to k recs ≡ some rec
    → Memᴰ rec recs × (rec.to_pubkey ≡ k)
unfolding find_to
find_to_sound k [] rec h = ground (arith, h)
find_to_sound k (r ∷ recs) rec h = elim (Bool-cases (r.to_pubkey == k)) [
  | inl e ↦
      let same : r ≡ rec = ground (arith, h, e) in
      (Memᴰ.head (sym same), ground (arith, same, e, str_eq_iff r.to_pubkey k))
  | inr e ↦ let (m, p) = find_to_sound k recs rec (ground (arith, h, e)) in (Memᴰ.tail m, p)
]

pub index_by_to-lookup :
    (by_to found : Dict String SuccessionRow) (recs : List SuccessionRow)
    → index_by_to by_to recs ≡ inr found
    → (k : String) → lookup k found ≡ or_else (lookup k by_to) (find_to k recs)
unfolding index_by_to find_to
index_by_to-lookup by_to found [] built k = ground (arith, built, Option-cases (lookup k by_to))
index_by_to-lookup by_to found (r ∷ recs) built k = elim (Option-cases (lookup r.to_pubkey by_to)) [
  | inl fresh ↦
      let built' = rw (index_by_to, fresh) at built in
      index_by_to-lookup (insert r.to_pubkey r by_to) found recs built' k
      ∙ ground (
        arith,
        lookup-insert r.to_pubkey k r by_to,
        fresh,
        str_eq_iff r.to_pubkey k,
        Option-cases (lookup k by_to),
      )
  | inr (prev, clash) ↦ absurd (ground (arith, built, clash))
]

-- The keys that rows hand over to.
unfoldable pub tos : List SuccessionRow → List String
tos [] = []
tos (rec ∷ recs) = rec.to_pubkey ∷ tos recs

pub index_by_to-total :
    (recs : List SuccessionRow) (by_to : Dict String SuccessionRow)
    → Distinct (tos recs)
    → ((k : String) → contains (tos recs) k ≡ true → lookup k by_to ≡ none)
    → (found : Dict String SuccessionRow) × (index_by_to by_to recs ≡ inr found)
unfolding index_by_to tos
index_by_to-total [] by_to d fresh = (by_to, refl)
index_by_to-total (r ∷ recs) by_to d fresh =
    rw (index_by_to, fresh r.to_pubkey (ground (arith, beq_refl r.to_pubkey)))
      (index_by_to-total recs (insert r.to_pubkey r by_to) d.1 λ k there.
        ground (arith, lookup-insert r.to_pubkey k r by_to, str_eq_iff r.to_pubkey k, fresh k, d.0))
