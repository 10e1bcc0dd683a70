-- ===== src/Ledger/Context.antt =====
-- What an approval was shown (kernel/internal/ledger/approval.go): the canonical form of its artifacts.
-- `sort.Slice` by label is a parameter.
use deepaxiom_aura.Base.{
  ℕ, String, Bool, false, not, ◌&&◌, Option, none, some, ◌⊎◌, inl, inr, List, [], ◌∷◌, ◌==◌,
  string_eq, if◌then◌else◌, ltb, leb, nat_beq, suc, length, first_of, all_of, before_mark,
  after_mark, ◌+++◌,
}

abbrev pub max_context_entries : ℕ
max_context_entries = 8

pub record ContextEntry : Type 0 where
  pub label : String
  pub digest : String

pub data ContextError : Type 0 where
  too_many : ℕ → ContextError
  bad_label : String → ContextError
  bad_digest : String → String → ContextError
  label_twice : String → ContextError

abbrev letters : String
letters = "abcdefghijklmnopqrstuvwxyz"

abbrev digits : String
digits = "0123456789"

unfoldable pub chars : String → ℕ
chars String.[] = 0
chars (String.◌∷◌ c s) = suc (chars s)

-- A text of m to n characters of a class.
unfoldable pub run_of : String → ℕ → ℕ → String → Bool
run_of class m n s = leb m (chars s) && leb (chars s) n && all_of class s

-- contextLabelRe
unfoldable pub label_matches : String → Bool
label_matches s =
    not (s == "") && all_of letters (first_of 1 s) && run_of (letters +++ digits +++ "_") 1 32 s

-- contextDigestRe: the colon is in neither class, so the first one ends the algorithm.
unfoldable pub digest_matches : String → Bool
digest_matches s = elim (after_mark ":" s) [
  | none ↦ false
  | some hex ↦
      all_of (letters +++ digits) (first_of 1 (before_mark ":" s))
      && run_of (letters +++ digits +++ "-") 1 16 (before_mark ":" s)
      && run_of (digits +++ "abcdef") 64 128 hex
]

-- The label of the entry before, where there is one.
unfoldable pub same_label : Option String → String → Bool
same_label none label = false
same_label (some before) label = before == label

unfoldable pub context_lines : Option String → List ContextEntry → ContextError ⊎ List String
context_lines before [] = inr []
context_lines before (e ∷ es) =
    let rest = context_lines (some e.label) es in
    if not (label_matches e.label)
    then inl (bad_label e.label)
    else if not (digest_matches e.digest)
    then inl (bad_digest e.label e.digest)
    else if same_label before e.label
    then inl (label_twice e.label)
    else elim rest [ inl err ↦ inl err | inr lines ↦ inr ((e.label +++ "=" +++ e.digest) ∷ lines) ]

-- strings.Join(lines, "\n")
unfoldable pub join_lines : List String → String
join_lines [] = ""
join_lines (line ∷ []) = line
join_lines (line ∷ next ∷ lines) = line +++ "\n" +++ join_lines (next ∷ lines)

module _ (sort_by_label : List ContextEntry → List ContextEntry) where
  unfoldable pub canonical_context : List ContextEntry → ContextError ⊎ String
  canonical_context entries =
      if nat_beq (length entries) 0
      then inr ""
      else if ltb max_context_entries (length entries)
      then inl (too_many (length entries))
      else elim (context_lines none (sort_by_label entries)) [
        | inl err ↦ inl err
        | inr lines ↦ inr (join_lines lines)
      ]
