-- ===== src/Ledger/Succession/Order.antt =====
-- The order of the rows does not matter to the search for a key, where no two hand over to one key.
use mathlib.Core.List.{Permᴰ}
use mathlib.Core.List.Permᴰ.{nil, cons, swap, trans}
use deepaxiom_aura.Base.{
  String, List, string_eq, str_eq_iff, length, contains, Distinct, ◌≡◌, refl, sym, ◌∙◌, arith,
}
use deepaxiom_aura.Ledger.Succession.{SuccessionRow}
use deepaxiom_aura.Ledger.Succession.Index.{find_to, tos, find_to}

pub length-perm : {xs ys : List SuccessionRow} → Permᴰ xs ys → length xs ≡ length ys
length-perm nil = refl
length-perm (cons e p) = omega (arith, length-perm p)
length-perm (swap e f) = refl
length-perm (trans p q) = length-perm p ∙ length-perm q

pub contains-perm :
    {xs ys : List SuccessionRow} (k : String)
    → Permᴰ xs ys
    → contains (tos xs) k ≡ contains (tos ys) k
unfolding tos
contains-perm k nil = refl
contains-perm k (cons e p) = rw e (ground (arith, contains-perm k p))
contains-perm k (swap e f) = rw (e, f) (ground arith)
contains-perm k (trans p q) = contains-perm k p ∙ contains-perm k q

pub Distinct-perm :
    {xs ys : List SuccessionRow} → Permᴰ xs ys → Distinct (tos xs) → Distinct (tos ys)
unfolding tos
Distinct-perm nil d = d
Distinct-perm (cons {a = a} e p) d =
    rw (← e) (sym (contains-perm a.to_pubkey p) ∙ d.0, Distinct-perm p d.1)
Distinct-perm (swap {a = a} {b = b} e f) d =
    rw (← e, ← f)
      (
        ground (arith, d, str_eq_iff a.to_pubkey b.to_pubkey, str_eq_iff b.to_pubkey a.to_pubkey),
        (ground (arith, d), d.1.1),
      )
Distinct-perm (trans p q) d = Distinct-perm q (Distinct-perm p d)

pub find_to-perm :
    {xs ys : List SuccessionRow} (k : String)
    → Permᴰ xs ys
    → Distinct (tos xs)
    → find_to k xs ≡ find_to k ys
unfolding find_to tos
find_to-perm k nil d = refl
find_to-perm k (cons e p) d = rw e (ground (arith, find_to-perm k p d.1))
find_to-perm k (swap {a = a} {b = b} e f) d =
    rw (← e, ← f)
      (ground (
        arith,
        d,
        str_eq_iff a.to_pubkey k,
        str_eq_iff b.to_pubkey k,
        str_eq_iff b.to_pubkey a.to_pubkey,
      ))
find_to-perm k (trans p q) d = find_to-perm k p d ∙ find_to-perm k q (Distinct-perm p d)
