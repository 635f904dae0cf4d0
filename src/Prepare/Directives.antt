-- ===== src/Prepare/Directives.antt =====
-- The directives that a new thread takes over from its creator, by the loop of src/prepare.c.
use Prim.Native.String.{String}
use text.Mathlib.Text.{◌==◌ as str_eq}
use text.Mathlib.TextEquality.{eq_iff}
use ext_pmmpthread.Prelude.{
  ℕ, ◌≡◌, refl, sym, ap, ◌∙◌, subst, false, Option, none, some, [], ◌∷◌, if◌then◌else◌, Bool-cases,
  inl, inr,
}
use ext_pmmpthread.Prepare.Tables.{Table, find, IsDistinct, find-replace, find-replace_other}
use ext_pmmpthread.Prepare.{
  IniEntry, Ini, inherit_value, inherit_both, inherit_found, inherit_all, without_headers,
  prepare_ini,
}

-- The value that a directive has again when the thread's request has ended.
abbrev pub restored : IniEntry → Option String
restored e = if e.modified then e.orig_value else e.value

-- What a directive of the thread becomes, given that of its creator.
abbrev inherited_from : Option String → Option String → IniEntry → IniEntry
inherited_from none w e = e
inherited_from (some v) none e = e
inherited_from (some v) (some w) e = if str_eq v w then e else inherit_value v e

abbrev inherited : Option IniEntry → Option IniEntry → Option IniEntry
inherited from none = none
inherited none (some e) = some e
inherited (some from) (some e) = some (inherited_from from.value e.value e)

both_same :
    (n : String) (v w : Option String) (e : IniEntry) (ini : Ini)
    → find n ini.directives ≡ some e
    → find n (inherit_both n v w e ini).directives ≡ some (inherited_from v w e)
both_same n none w e ini h = h
both_same n (some v) none e ini h = h
both_same n (some v) (some w) e ini h = elim (Bool-cases (str_eq v w)) [
  | inl same ↦ rw same h
  | inr differ ↦ rw differ (find-replace n e (inherit_value v e) ini.directives h)
]

step_same :
    (n : String) (from : IniEntry) (ini : Ini) (o : Option IniEntry)
    → find n ini.directives ≡ o
    → find n (inherit_found n from o ini).directives ≡ inherited (some from) o
step_same n from ini none h = h
step_same n from ini (some e) h = both_same n from.value e.value e ini h

both_other :
    (n k : String) (v w : Option String) (e : IniEntry) (ini : Ini)
    → str_eq n k ≡ false
    → find k (inherit_both n v w e ini).directives ≡ find k ini.directives
both_other n k none w e ini h = refl
both_other n k (some v) none e ini h = refl
both_other n k (some v) (some w) e ini h = elim (Bool-cases (str_eq v w)) [
  | inl same ↦ rw same refl
  | inr differ ↦ rw differ (find-replace_other n k (inherit_value v e) ini.directives h)
]

step_other :
    (n k : String) (from : IniEntry) (ini : Ini) (o : Option IniEntry)
    → str_eq n k ≡ false
    → find k (inherit_found n from o ini).directives ≡ find k ini.directives
step_other n k from ini none h = refl
step_other n k from ini (some e) h = both_other n k from.value e.value e ini h

-- A directive that the creator does not have is left as it is.
inherited-none : (o : Option IniEntry) → inherited none o ≡ o
inherited-none none = refl
inherited-none (some e) = refl

inherit_all_lem :
    (creator : Table IniEntry) (k : String) (ini : Ini)
    → IsDistinct creator
    → find k (inherit_all creator ini).directives
      ≡ inherited (find k creator) (find k ini.directives)
unfolding inherit_all
inherit_all_lem [] k ini d = sym (inherited-none (find k ini.directives))
inherit_all_lem ((n, from) ∷ more) k ini (only, d) =
    let o = find n ini.directives in
    let after = inherit_found n from o ini in
    elim (Bool-cases (str_eq n k)) [
      | inl e ↦
          let same : n ≡ k = (eq_iff n k).0 e in
          let gone : find k more ≡ none = subst (λ m. find m more ≡ none) same only in
          let done : find k after.directives ≡ inherited (some from) (find k ini.directives) =
            subst (λ m. find m after.directives ≡ inherited (some from) (find m ini.directives))
              same (step_same n from ini o refl) in
          inherit_all_lem more k after d
          ∙ ap (λ q. inherited q (find k after.directives)) gone
          ∙ inherited-none (find k after.directives)
          ∙ done
          ∙ ap (λ b. inherited (if b then some from else find k more) (find k ini.directives))
              (sym e)
      | inr e ↦
          inherit_all_lem more k after d
          ∙ ap (inherited (find k more)) (step_other n k from ini o e)
          ∙ ap (λ b. inherited (if b then some from else find k more) (find k ini.directives))
              (sym e)
    ]

-- What the thread's directive `e` has become: it has the value `v`, may be changed by whom it could,
-- and the end of the request restores what it would have restored.
abbrev pub TakenOver : String → IniEntry → IniEntry → Type 0
TakenOver v e e' =
    (e'.value ≡ some v) × ((e'.modifiable ≡ e.modifiable) × (restored e' ≡ restored e))

module _ (alter : String → String → Ini → Ini) where
  -- A directive that the creator does not have is left as the options for headers have set it.
  pub prepare_ini_own :
      (options : ℕ) (creator : Table IniEntry) (ini : Ini) (n : String)
      → IsDistinct creator
      → find n creator ≡ none
      → find n (prepare_ini alter options creator ini).directives
        ≡ find n (without_headers alter options ini).directives
  unfolding prepare_ini
  prepare_ini_own options creator ini n d gone =
      inherit_all_lem creator n (without_headers alter options ini) d
      ∙ ap (λ q. inherited q (find n (without_headers alter options ini).directives)) gone
      ∙ inherited-none (find n (without_headers alter options ini).directives)
