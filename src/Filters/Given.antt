-- ===== src/Filters/Given.antt =====
-- The compiled constraints of domain/vector_filters.py, against the ones that were given.
use andnp_searchkernel.Prelude.{
  ◌≡◌, refl, sym, Bool, true, false, ◌&&◌, ◌||◌, Bool-cases, inl, inr, Option, none, some, String,
  str_eq, eq_iff, subst, List, [], ◌∷◌, if◌then◌else◌, All, arith,
}
use mathlib.Core.Bool.{false≢true}
use andnp_searchkernel.Exec.{Result, ok, err}
use andnp_searchkernel.Dict.{find, string_discrete}
use andnp_searchkernel.Batching.Keys.{contains}
use andnp_searchkernel.Filters.Scoped.{
  Item, str, alien, Value, null, text, items, opaque, Constraint, plain, fields, FilterError,
  value_error, Metadata, any_allowed, has_allowed, in_workspaces, all_non_empty, all_contain,
  non_empty_list, ◌>>=◌, strings_of, compile_string_list, keys_of, compile_metadata_keys, fields_of,
  compile_metadata_contains_any, compile_if, compile_workspaces, is_metadata_field,
}
use andnp_searchkernel.Filters.Permitted.{
  IsIn, Workspace, NonEmptyItem, NonEmptyAll, SharesEntry, SharesAll,
}

pub bind-ok :
    {A B : Type 0} (r : Result FilterError A) (f : A → Result FilterError B) (b : B)
    → (r >>= f) ≡ ok b
    → (a : A) × (r ≡ ok a) × (f a ≡ ok b)
bind-ok (ok a) f b e = (a, refl, e)
bind-ok (err x) f b e = absurd (ground arith)

pub ok-injective : {A : Type 0} {a b : A} → ◌≡◌ {A = Result FilterError A} (ok a) (ok b) → a ≡ b
ok-injective e = ground arith

checked-ok :
    {A : Type 0} (t : Bool) (a : A) (x : FilterError) (b : A)
    → (if t then ok a else err x) ≡ ok b
    → a ≡ b
checked-ok true a x b e = ok-injective e
checked-ok false a x b e = absurd (ground arith)

strings_of-IsIn :
    (is : List Item) (ss : List String) (s : String)
    → strings_of is ≡ ok ss
    → contains ss s ≡ true
    → IsIn s is
unfolding contains
strings_of-IsIn [] ss s e c =
    absurd (false≢true (subst (λ l. contains l s ≡ true) (sym (ok-injective e)) c))
strings_of-IsIn (alien ∷ is) ss s e c = absurd (ground arith)
strings_of-IsIn (str t ∷ is) ss s e c =
    let b = bind-ok (strings_of is) (λ rest. ok (t ∷ rest)) ss e in
    let c' : (str_eq t s || contains b.0 s) ≡ true =
      subst (λ l. contains l s ≡ true) (sym (ok-injective b.2)) c in
    elim (Bool-cases (str_eq t s)) [
      | inl y ↦ inl ((eq_iff t s).0 y)
      | inr n ↦ inr (strings_of-IsIn is b.0 s b.1 (ground arith))
    ]

listed-Workspace :
    (c : Constraint) (ss : List String) (w : Option String)
    → compile_string_list c ≡ ok ss
    → in_workspaces (some ss) w ≡ true
    → Workspace (some c) w
unfolding compile_string_list
listed-Workspace (fields kvs) ss w e c = absurd (ground arith)
listed-Workspace (plain (text t)) ss w e c = absurd (ground arith)
listed-Workspace (plain null) ss w e c = absurd (ground arith)
listed-Workspace (plain (opaque t)) ss w e c = absurd (ground arith)
listed-Workspace (plain (items is t)) ss none e c = absurd (false≢true c)
listed-Workspace (plain (items is t)) ss (some w) e c = strings_of-IsIn is ss w e c

pub compile_workspaces-Workspace :
    (o : Option Constraint) (ids : Option (List String)) (w : Option String)
    → compile_workspaces o ≡ ok ids
    → in_workspaces ids w ≡ true
    → Workspace o w
compile_workspaces-Workspace none ids w e c = tt
compile_workspaces-Workspace (some v) ids w e c =
    let b = bind-ok (compile_string_list v) (λ i. ok (some i)) ids e in
    listed-Workspace v b.0 w b.1 (subst (λ i. in_workspaces i w ≡ true) (sym (ok-injective b.2)) c)

-- A conjunction that holds.
pub both : (a b : Bool) → (a && b) ≡ true → (a ≡ true) × (b ≡ true)
both a b e = (ground arith, ground arith)

non_empty_list-NonEmpty :
    (o : Option Value)
    → non_empty_list o ≡ true
    → (i : Item) × (is : List Item) × (t : String) × (o ≡ some (items (i ∷ is) t))
non_empty_list-NonEmpty none e = absurd (false≢true e)
non_empty_list-NonEmpty (some (text t)) e = absurd (false≢true e)
non_empty_list-NonEmpty (some null) e = absurd (false≢true e)
non_empty_list-NonEmpty (some (opaque t)) e = absurd (false≢true e)
non_empty_list-NonEmpty (some (items [] t)) e = absurd (false≢true e)
non_empty_list-NonEmpty (some (items (i ∷ is) t)) e = (i, is, t, refl)

keys_of-NonEmpty :
    (metadata : Metadata) (is : List Item) (ss : List String)
    → keys_of is ≡ ok ss
    → all_non_empty metadata ss ≡ true
    → All (NonEmptyItem metadata) is
keys_of-NonEmpty metadata [] ss e c = tt
keys_of-NonEmpty metadata (alien ∷ is) ss e c = absurd (ground arith)
keys_of-NonEmpty metadata (str field ∷ is) ss e c =
    let b =
      bind-ok (keys_of is)
        (λ rest.
          if is_metadata_field field
          then ok (field ∷ rest)
          else err (value_error "must contain valid metadata keys"))
        ss e in
    let p : field ∷ b.0 ≡ ss = checked-ok (is_metadata_field field) _ _ ss b.2 in
    let c' =
      both (non_empty_list (find string_discrete field metadata)) (all_non_empty metadata b.0)
        (subst (λ l. all_non_empty metadata l ≡ true) (sym p) c) in
    (non_empty_list-NonEmpty _ c'.0, keys_of-NonEmpty metadata is b.0 b.1 c'.1)

pub compile_metadata_keys-NonEmptyAll :
    (metadata : Metadata) (o : Option Constraint) (ss : List String)
    → compile_if compile_metadata_keys [] o ≡ ok ss
    → all_non_empty metadata ss ≡ true
    → NonEmptyAll metadata o
unfolding compile_metadata_keys
compile_metadata_keys-NonEmptyAll metadata none ss e c = tt
compile_metadata_keys-NonEmptyAll metadata (some (fields kvs)) ss e c = absurd (ground arith)
compile_metadata_keys-NonEmptyAll metadata (some (plain (text t))) ss e c = absurd (ground arith)
compile_metadata_keys-NonEmptyAll metadata (some (plain null)) ss e c = absurd (ground arith)
compile_metadata_keys-NonEmptyAll metadata (some (plain (opaque t))) ss e c = absurd (ground arith)
compile_metadata_keys-NonEmptyAll metadata (some (plain (items is t))) ss e c =
    keys_of-NonEmpty metadata is ss e c

any_allowed-IsIn :
    (allowed : List String) (is : List Item)
    → any_allowed allowed is ≡ true
    → (s : String) × IsIn s is × (contains allowed s ≡ true)
any_allowed-IsIn allowed [] e = absurd (false≢true e)
any_allowed-IsIn allowed (alien ∷ is) e = any_allowed-IsIn allowed is e
any_allowed-IsIn allowed (str s ∷ is) e = elim (Bool-cases (contains allowed s)) [
  | inl y ↦ (s, inl refl, y)
  | inr n ↦ let r = any_allowed-IsIn allowed is (ground arith) in (r.0, inr r.1, r.2)
]

has_allowed-IsIn :
    (allowed : List String) (o : Option Value)
    → has_allowed allowed o ≡ true
    → (is : List Item) × (t : String) × (s : String) × (o ≡ some (items is t))
      × IsIn s is
      × (contains allowed s ≡ true)
has_allowed-IsIn allowed none e = absurd (false≢true e)
has_allowed-IsIn allowed (some (text t)) e = absurd (false≢true e)
has_allowed-IsIn allowed (some null) e = absurd (false≢true e)
has_allowed-IsIn allowed (some (opaque t)) e = absurd (false≢true e)
has_allowed-IsIn allowed (some (items is t)) e =
    let r = any_allowed-IsIn allowed is e in (is, t, r.0, refl, r.1, r.2)

pub checked :
    {A : Type 0} (t : Bool) (r : Result FilterError A) (x : FilterError) (a : A)
    → (if t then r else err x) ≡ ok a
    → r ≡ ok a
checked true r x a e = e
checked false r x a e = absurd (ground arith)

pub otherwise :
    {A : Type 0} (t : Bool) (r : Result FilterError A) (x : FilterError) (a : A)
    → (if t then err x else r) ≡ ok a
    → r ≡ ok a
otherwise true r x a e = absurd (ground arith)
otherwise false r x a e = e

-- One field of the compiled constraint, as it was given.
shares :
    (metadata : Metadata) (field : String) (v : Value) (allowed : List String) (is : List Item)
    (t s : String)
    → compile_string_list (plain v) ≡ ok allowed
    → find string_discrete field metadata ≡ some (items is t)
    → IsIn s is
    → contains allowed s ≡ true
    → SharesEntry metadata (str field, v)
unfolding compile_string_list
shares metadata field (text u) allowed is t s e f i c = absurd (ground arith)
shares metadata field null allowed is t s e f i c = absurd (ground arith)
shares metadata field (opaque u) allowed is t s e f i c = absurd (ground arith)
shares metadata field (items js u) allowed is t s e f i c =
    (is, t, s, f, i, strings_of-IsIn js allowed s e c)

fields_of-SharesEntry :
    (metadata : Metadata) (kvs : List (Item × Value)) (compiled : List (String × List String))
    → fields_of kvs ≡ ok compiled
    → all_contain metadata compiled ≡ true
    → All (SharesEntry metadata) kvs
fields_of-SharesEntry metadata [] compiled e c = tt
fields_of-SharesEntry metadata ((alien, v) ∷ kvs) compiled e c = absurd (ground arith)
fields_of-SharesEntry metadata ((str field, v) ∷ kvs) compiled e c =
    let b =
      bind-ok (compile_string_list (plain v))
        (λ allowed. fields_of kvs >>= λ rest. ok ((field, allowed) ∷ rest)) compiled
        (checked (is_metadata_field field) _ _ compiled e) in
    let b' = bind-ok (fields_of kvs) (λ rest. ok ((field, b.0) ∷ rest)) compiled b.2 in
    let c' =
      both (has_allowed b.0 (find string_discrete field metadata)) (all_contain metadata b'.0)
        (subst (λ l. all_contain metadata l ≡ true) (sym (ok-injective b'.2)) c) in
    let found = has_allowed-IsIn b.0 _ c'.0 in
    (
      shares metadata field v b.0 found.0 found.1 found.2 b.1 found.3 found.4 found.5,
      fields_of-SharesEntry metadata kvs b'.0 b'.1 c'.1,
    )

pub compile_metadata_contains_any-SharesAll :
    (metadata : Metadata) (o : Option Constraint) (compiled : List (String × List String))
    → compile_if compile_metadata_contains_any [] o ≡ ok compiled
    → all_contain metadata compiled ≡ true
    → SharesAll metadata o
unfolding compile_metadata_contains_any
compile_metadata_contains_any-SharesAll metadata none compiled e c = tt
compile_metadata_contains_any-SharesAll metadata (some (plain v)) compiled e c =
    absurd (ground arith)
compile_metadata_contains_any-SharesAll metadata (some (fields kvs)) compiled e c =
    fields_of-SharesEntry metadata kvs compiled e c
