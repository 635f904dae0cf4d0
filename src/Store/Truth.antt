-- ===== src/Store/Truth.antt =====
-- The test for a member that is not empty in src/store.c, against PHP's truth of values.
use ext_pmmpthread.Prelude.{
  ℕ, ◌^◌, ◌≡◌, refl, ap, ◌∙◌, Bool, true, false, not, ◌&&◌, ◌||◌, none, some, List, [], ◌∷◌, ◌==◌,
  arith,
}
use ext_pmmpthread.Zend.Buckets.{lookup}
use ext_pmmpthread.Store.Types.{
  Storage, string_data, closure_data, object_data, socket_data, enum_data,
}
use ext_pmmpthread.Store.State.{Engine, State, Offset, coerce}
use ext_pmmpthread.Store.Access.{property_not_empty, is_set, empty_or_0, isset}

-- The strings that PHP takes as false: "" and "0".
abbrev pub false_text : List ℕ → Bool
false_text [] = true
false_text (c ∷ []) = c == 48
false_text (c ∷ d ∷ cs) = false

-- Those that begin with a '0' which is not all of them.
abbrev pub leading_zero : List ℕ → Bool
leading_zero (c ∷ d ∷ cs) = c == 48
leading_zero _ = false

-- `zend_is_true` of an element.
abbrev pub truthy : Storage → Bool
truthy Storage.null = false
truthy (Storage.bool b) = b
truthy (Storage.long n) = not (n == 0)
truthy (Storage.double d) = not (d == 0 || d == 2 ^ 63)
truthy (Storage.string s) = not (false_text s.text)
truthy (Storage.ptr (string_data s owner)) = not (false_text s.text)
truthy (Storage.ptr _) = true

abbrev pub zero_string : Storage → Bool
zero_string (Storage.string s) = leading_zero s.text
zero_string (Storage.ptr (string_data s owner)) = leading_zero s.text
zero_string _ = false

text_lem : (cs : List ℕ) → empty_or_0 cs ≡ (false_text cs || leading_zero cs)
unfolding empty_or_0
text_lem [] = refl
text_lem (c ∷ []) = ground arith
text_lem (c ∷ d ∷ cs) = refl

set_lem : (z : Storage) → is_set property_not_empty z ≡ (truthy z && not (zero_string z))
unfolding is_set
set_lem Storage.null = refl
set_lem (Storage.bool true) = refl
set_lem (Storage.bool false) = refl
set_lem (Storage.long n) = ground arith
set_lem (Storage.double d) = ground arith
set_lem (Storage.string s) = ground (arith, text_lem s.text)
set_lem (Storage.ptr (string_data s owner)) = ground (arith, text_lem s.text)
set_lem (Storage.ptr (closure_data c this owner)) = refl
set_lem (Storage.ptr (object_data o)) = refl
set_lem (Storage.ptr (socket_data s)) = refl
set_lem (Storage.ptr (enum_data c m)) = refl

-- For a member that is there, the test for not being empty answers PHP's truth of its value, but for
-- strings of two bytes or more that begin with '0', which PHP takes as true: for these it says no.
pub isset-truthy :
    (E : Engine) (st : State E) (key : Offset) (z : Storage)
    → lookup (coerce E key).0 (E.Z.slots st.props.hash) ≡ some z
    → isset E true st key property_not_empty ≡ (truthy z && not (zero_string z))
unfolding isset
isset-truthy E st key z h =
    ap (λ o. elim o [ none ↦ false | some w ↦ is_set property_not_empty w ])
      (E.Z.find-lookup st.props.hash (coerce E key).0 ∙ h)
    ∙ set_lem z
