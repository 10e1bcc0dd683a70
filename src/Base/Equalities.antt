-- ===== src/Base/Equalities.antt =====
-- Go's `==` carried to structs and lists, field by field.
use mathlib.Core.Path.{◌≡◌, refl, sym, ap, ◌∙◌}
use mathlib.Core.Logic.{◌↔◌}
use mathlib.Core.Bool.{Bool, true, false, ◌&&◌}
use mathlib.Core.List.{List, [], ◌∷◌}
use mathlib.Core.Option.{Option, none, some}
use native.Mathlib.Omega.{arith}
use deepaxiom_aura.Base.Tests.{Eq, ◌==◌, beq_refl}

abbrev pub beq_bool : Bool → Bool → Bool
beq_bool true b = b
beq_bool false true = false
beq_bool false false = true

pub beq_bool_iff : (a b : Bool) → (beq_bool a b ≡ true) ↔ (a ≡ b)
beq_bool_iff a b = ground arith

instance abbrev pub bool_eq : Eq Bool
bool_eq = record { agrees = beq_bool; agrees_iff = beq_bool_iff }

pub pair_eq : {A B : Type 0} → Eq A → Eq B → Eq (A × B)
pair_eq e f = record {
  agrees = λ x y. (e.agrees x.0 y.0) && f.agrees x.1 y.1;
  agrees_iff = λ x y. ground (arith, e.agrees_iff x.0 y.0, f.agrees_iff x.1 y.1);
}

module _ {A : Type 0} ⦃e : Eq A⦄ where
  abbrev beq_option : Option A → Option A → Bool
  beq_option none none = true
  beq_option none (some _) = false
  beq_option (some _) none = false
  beq_option (some a) (some b) = a == b

  beq_option_sound : (x y : Option A) → beq_option x y ≡ true → x ≡ y
  beq_option_sound none none h = refl
  beq_option_sound none (some _) h = absurd (ground (arith, h))
  beq_option_sound (some _) none h = absurd (ground (arith, h))
  beq_option_sound (some a) (some b) h = ap some ((e.agrees_iff a b).0 h)

  beq_option_refl : (x : Option A) → beq_option x x ≡ true
  beq_option_refl none = refl
  beq_option_refl (some a) = beq_refl a

  abbrev beq_list : List A → List A → Bool
  beq_list [] [] = true
  beq_list [] (_ ∷ _) = false
  beq_list (_ ∷ _) [] = false
  beq_list (a ∷ xs) (b ∷ ys) = (a == b) && beq_list xs ys

  beq_list_sound : (xs ys : List A) → beq_list xs ys ≡ true → xs ≡ ys
  beq_list_sound [] [] h = refl
  beq_list_sound [] (_ ∷ _) h = absurd (ground (arith, h))
  beq_list_sound (_ ∷ _) [] h = absurd (ground (arith, h))
  beq_list_sound (a ∷ xs) (b ∷ ys) h = ground (arith, h, e.agrees_iff a b, beq_list_sound xs ys)

  beq_list_refl : (xs : List A) → beq_list xs xs ≡ true
  beq_list_refl [] = refl
  beq_list_refl (a ∷ xs) = ground (arith, beq_refl a, beq_list_refl xs)

pub option_eq : {A : Type 0} ⦃e : Eq A⦄ → Eq (Option A)
option_eq = record {
  agrees = beq_option;
  agrees_iff = λ x y. (beq_option_sound x y, λ h. rw h (beq_option_refl y));
}

pub list_eq : {A : Type 0} ⦃e : Eq A⦄ → Eq (List A)
list_eq = record {
  agrees = beq_list;
  agrees_iff = λ x y. (beq_list_sound x y, λ h. rw h (beq_list_refl y));
}

-- A type whose values are told apart by what they unfold to.
pub eq_through :
    {A B : Type 0} (e : Eq B) (fields : A → B) (build : B → A)
    → ((a : A) → build (fields a) ≡ a)
    → Eq A
eq_through e fields build back = record {
  agrees = λ x y. e.agrees (fields x) (fields y);
  agrees_iff = λ x y. (
    λ h. sym (back x) ∙ ap build ((e.agrees_iff (fields x) (fields y)).0 h) ∙ back y,
    λ h. (e.agrees_iff (fields x) (fields y)).1 (ap fields h),
  );
}
