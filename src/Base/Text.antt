-- ===== src/Base/Text.antt =====
-- What the program uses of Go's package `strings`.
use Prim.Native.String.{String, ◌++◌ as ◌+++◌}
use Prim.Native.Nat.{ℕ, zero, suc}
use Prim.Native.String.append
use mathlib.Core.Option.{Option, none, some}
use mathlib.Core.Path.{◌≡◌, refl, sym, ap, ◌∙◌}
use mathlib.Core.Logic.{◌≢◌, ◌↔◌, inl, inr}
use mathlib.Core.Bool.{Bool, true, false, ◌||◌, ◌&&◌}
use native.Mathlib.Omega.{arith}
use text.Mathlib.Text.{starts_with}
use text.Mathlib.TextEquality.{starts_with_iff}
use text.Mathlib.TextLemmas.{append_cancel_right}
use deepaxiom_aura.Base.Tests.{str_eq, str_eq_iff, if◌then◌else◌, Bool-cases}
pub use Prim.Native.String.{◌++◌ as ◌+++◌}

-- strings.HasPrefix(s, p)
unfoldable pub has_prefix : String → String → Bool
has_prefix s p = starts_with s p

-- strings.HasSuffix(s, p)
unfoldable pub has_suffix : String → String → Bool
has_suffix String.[] p = str_eq String.[] p
has_suffix (String.◌∷◌ c s) p = str_eq (String.◌∷◌ c s) p || has_suffix s p

-- strings.TrimSuffix(s, p): s without a last p, or s.
unfoldable pub trim_suffix : String → String → String
trim_suffix String.[] p = String.[]
trim_suffix (String.◌∷◌ c s) p =
    if str_eq (String.◌∷◌ c s) p then String.[] else String.◌∷◌ c (trim_suffix s p)

-- strings.Contains(s, p)
unfoldable pub contains_text : String → String → Bool
contains_text String.[] p = has_prefix String.[] p
contains_text (String.◌∷◌ c s) p = has_prefix (String.◌∷◌ c s) p || contains_text s p

-- s[n:], where n is a number of characters, and nothing for a text that is not longer than n
unfoldable pub past : ℕ → String → Option String
past zero String.[] = none
past zero (String.◌∷◌ c s) = some (String.◌∷◌ c s)
past (suc n) String.[] = none
past (suc n) (String.◌∷◌ c s) = past n s

-- s[:n], or s where it is shorter
unfoldable pub first_of : ℕ → String → String
first_of zero s = String.[]
first_of (suc n) String.[] = String.[]
first_of (suc n) (String.◌∷◌ c s) = String.◌∷◌ c (first_of n s)

-- The text before the first mark, a text of one character, and what stands after it.
unfoldable pub before_mark : String → String → String
before_mark mark String.[] = String.[]
before_mark mark (String.◌∷◌ c s) =
    if str_eq (String.◌∷◌ c String.[]) mark then String.[] else String.◌∷◌ c (before_mark mark s)

unfoldable pub after_mark : String → String → Option String
after_mark mark String.[] = none
after_mark mark (String.◌∷◌ c s) =
    let later = after_mark mark s in if str_eq (String.◌∷◌ c String.[]) mark then some s else later

-- Every character of the text is one of the class.
unfoldable pub all_of : String → String → Bool
all_of class String.[] = true
all_of class (String.◌∷◌ c s) = contains_text class (String.◌∷◌ c String.[]) && all_of class s

pub has_prefix_iff : (s p : String) → (has_prefix s p ≡ true) ↔ ((u : String) × (p +++ u ≡ s))
unfolding has_prefix
has_prefix_iff s p = starts_with_iff s p

pub trim-append : (s p : String) → has_suffix s p ≡ true → trim_suffix s p +++ p ≡ s
unfolding has_suffix trim_suffix
trim-append String.[] p h = rw (append.nil p) (sym ((str_eq_iff String.[] p).0 h))
trim-append (String.◌∷◌ c s) p h = elim (Bool-cases (str_eq (String.◌∷◌ c s) p)) [
  | inl e ↦ rw e (append.nil p ∙ sym ((str_eq_iff (String.◌∷◌ c s) p).0 e))
  | inr e ↦ rw (e, append.cons) (ap (λ t. String.◌∷◌ c t) (trim-append s p (ground arith)))
]

longer : (u p : String) → u ≢ String.[] → str_eq (u +++ p) p ≡ false
longer u p n = elim (Bool-cases (str_eq (u +++ p) p)) [
  | inl e ↦
      absurd
        (n (append_cancel_right u String.[] p ((str_eq_iff (u +++ p) p).0 e ∙ sym (append.nil p))))
  | inr e ↦ e
]

suffix_self : (p : String) → has_suffix p p ≡ true
unfolding has_suffix
suffix_self String.[] = (str_eq_iff String.[] String.[]).1 refl
suffix_self (String.◌∷◌ c s) = ground (arith, str_eq_iff (String.◌∷◌ c s) (String.◌∷◌ c s))

trim_self : (p : String) → trim_suffix p p ≡ String.[]
unfolding trim_suffix
trim_self String.[] = refl
trim_self (String.◌∷◌ c s) = rw (str_eq_iff (String.◌∷◌ c s) (String.◌∷◌ c s)).1 refl

-- A text that ends in p is recognised, and split there.
pub suffix-append : (u p : String) → has_suffix (u +++ p) p ≡ true
unfolding has_suffix
suffix-append String.[] p = rw (append.nil p) (suffix_self p)
suffix-append (String.◌∷◌ c s) p = rw (append.cons c s p) (ground (arith, suffix-append s p))

pub trim-append_right : (u p : String) → trim_suffix (u +++ p) p ≡ u
unfolding trim_suffix
trim-append_right String.[] p = rw (append.nil p) (trim_self p)
trim-append_right (String.◌∷◌ c s) p =
    let longer' : str_eq (String.◌∷◌ c (s +++ p)) p ≡ false =
      rw (← append.cons c s p) (longer (String.◌∷◌ c s) p (λ e. cc)) in
    rw (append.cons c s p, longer') (ap (λ t. String.◌∷◌ c t) (trim-append_right s p))
