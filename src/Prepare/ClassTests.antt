-- ===== src/Prepare/ClassTests.antt =====
-- The theorem about the classes of src/prepare.c at a class with a parent and an interface, and a run.
use Prim.Native.String.{String}
use ext_pmmpthread.Prelude.{ℕ, ◌≡◌, refl, true, false, none, some, [], ◌∷◌, inl}
use ext_pmmpthread.Prepare.Entries.{
  ClassHead, Class, base, derived, Classes, no_more, more, Entry, Loaded, enter, create_entry,
}
use ext_pmmpthread.Prepare.Kept.{IsNamed, AllNamed}
use ext_pmmpthread.Prepare.Hierarchy.{IsDerived, create_entry_lem}

abbrev named_class : String → ℕ → ClassHead
named_class n a = record {
  addr = a;
  name = n;
  internal = false;
  preloaded = false;
  anonymous = false;
  linked = true;
  immutable = false;
}

abbrev parent : Class
parent = base (named_class "p" 10) no_more

abbrev no_classes : Loaded
no_classes = record { class_table = []; next = 500 }

abbrev an_interface : Class
an_interface = base (named_class "i" 12) no_more

abbrev interfaces_i : Classes
interfaces_i = more an_interface no_more

parent-IsNamed : IsNamed parent
unfolding IsNamed
parent-IsNamed = (refl, tt)

i-AllNamed : AllNamed interfaces_i
unfolding IsNamed
i-AllNamed = ((refl, tt), tt)

create_entry_lem_example :
    IsDerived
      (λ n. n)
      (named_class "c" 11)
      (named_class "p" 10)
      (create_entry (λ n. n) (derived (named_class "c" 11) parent interfaces_i) no_classes)
create_entry_lem_example =
    create_entry_lem (λ n. n) (named_class "c" 11) parent interfaces_i no_classes parent-IsNamed
      i-AllNamed refl refl refl refl refl (inl refl)

-- An anonymous class that had no parent yet keeps its address.
abbrev unlinked : Entry
unlinked = record {
  addr = 7;
  anonymous = true;
  linked = false;
  immutable = false;
  parent = none;
  interfaces = [];
}

rebound_run :
    (create_entry
      (λ n. n)
      (derived (record (named_class "c" 11) { anonymous = true }) parent no_more)
      (record { class_table = ("c", unlinked) ∷ []; next = 500 })).1.class_table
    ≡ ("c", record unlinked { linked = true; parent = some 500 })
      ∷ (
        "p",
        record {
          addr = 500;
          anonymous = false;
          linked = true;
          immutable = false;
          parent = none;
          interfaces = [];
        },
      )
      ∷ []
unfolding create_entry enter
rebound_run = refl
