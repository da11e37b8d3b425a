-- ===== src/Filters/Authorized.antt =====
-- What a compiled filter of domain/vector_filters.py lets through, against the constraints it was compiled
-- from.
use andnp_searchkernel.Prelude.{
  ◌≡◌, refl, sym, ap, ◌∙◌, true, false, ◌&&◌, Bool-cases, inl, inr, Option, none, some, String,
  str_eq, eq_iff, subst, List, [], ◌∷◌, if◌then◌else◌, arith,
}
use mathlib.Core.Bool.{true≢false}
use andnp_searchkernel.Exec.{ok}
use andnp_searchkernel.Filters.Scoped.{
  Item, str, alien, Constraint, Constraints, constraints, no_mapping, ScopedFilters, scoped,
  not_scoped, SourceScopedFilter, in_workspaces, all_non_empty, all_contain, scoped_matches,
  compile_metadata_keys, compile_metadata_contains_any, constraint_of, valid_constraints,
  compile_if, compile_workspaces, compile_scoped, compile_entries, compile_source_scoped_filters,
}
use andnp_searchkernel.Filters.Permitted.{Permitted, AllPermitted, Authorized}
use andnp_searchkernel.Filters.Given.{
  bind-ok, ok-injective, compile_workspaces-Workspace, both, compile_metadata_keys-NonEmptyAll,
  checked, otherwise, compile_metadata_contains_any-SharesAll,
}
use andnp_searchkernel.Filters.Compiled.{
  CompiledVectorFilter, Candidate, any_scoped, scoped_all, requires_metadata, matches_metadata,
  matches,
}

-- A compiled filter has its kind, and what matches it meets the constraints it was compiled from.
compile_scoped-Permitted :
    (kind : String) (cs : List (Item × Constraint)) (f : SourceScopedFilter)
    → compile_scoped kind cs ≡ ok f
    → (f.source_kind ≡ kind)
      × ((c : Candidate) → scoped_matches f c.workspace_id c.metadata ≡ true → Permitted cs c)
unfolding compile_scoped scoped_matches
compile_scoped-Permitted kind cs f e =
    let a =
      bind-ok (compile_workspaces (constraint_of "workspace_ids" cs)) _ f
        (checked (valid_constraints cs) _ _ f e) in
    let b =
      bind-ok (compile_if compile_metadata_keys [] (constraint_of "metadata_non_empty" cs)) _ f
        a.2 in
    let d =
      bind-ok
        (compile_if compile_metadata_contains_any [] (constraint_of "metadata_contains_any" cs)) _ f
        b.2 in
    let p = ok-injective d.2 in
    (
      ap (λ g. g.source_kind) (sym p),
      λ c m.
          let m' = subst (λ g. scoped_matches g c.workspace_id c.metadata ≡ true) (sym p) m in
          let x =
            both (in_workspaces a.0 c.workspace_id && all_non_empty c.metadata b.0)
              (all_contain c.metadata d.0) m' in
          let y = both (in_workspaces a.0 c.workspace_id) (all_non_empty c.metadata b.0) x.0 in
          (
            compile_workspaces-Workspace _ a.0 c.workspace_id a.1 y.0,
            compile_metadata_keys-NonEmptyAll c.metadata _ b.0 b.1 y.1,
            compile_metadata_contains_any-SharesAll c.metadata _ d.0 d.1 x.1,
          ),
    )

scoped_all-cons :
    (f : SourceScopedFilter) (fs : List SourceScopedFilter) (c : Candidate)
    → scoped_all (f ∷ fs) c ≡ true
    → (f.source_kind ≡ c.source_kind → scoped_matches f c.workspace_id c.metadata ≡ true)
      × (scoped_all fs c ≡ true)
scoped_all-cons f fs c e =
    let b =
      both
        (if str_eq f.source_kind c.source_kind
          then scoped_matches f c.workspace_id c.metadata
          else true)
        (scoped_all fs c) e in
    (
      λ q.
          let s : str_eq f.source_kind c.source_kind ≡ true =
            (eq_iff f.source_kind c.source_kind).1 q in
          (rw s at b.0),
      b.1,
    )

compile_entries-AllPermitted :
    (entries : List (Item × Constraints)) (fs : List SourceScopedFilter) (c : Candidate)
    → compile_entries entries ≡ ok fs
    → scoped_all fs c ≡ true
    → AllPermitted entries c
unfolding compile_entries
compile_entries-AllPermitted [] fs c e m = tt
compile_entries-AllPermitted ((alien, cs) ∷ entries) fs c e m = absurd (ground arith)
compile_entries-AllPermitted ((str kind, no_mapping) ∷ entries) fs c e m = absurd (ground arith)
compile_entries-AllPermitted ((str kind, constraints cs) ∷ entries) fs c e m =
    let a = bind-ok (compile_scoped kind cs) _ fs (otherwise (str_eq kind "") _ _ fs e) in
    let b = bind-ok (compile_entries entries) (λ compiled. ok (a.0 ∷ compiled)) fs a.2 in
    let m' =
      scoped_all-cons a.0 b.0 c (subst (λ l. scoped_all l c ≡ true) (sym (ok-injective b.2)) m) in
    let p = compile_scoped-Permitted kind cs a.0 a.1 in
    (λ q. p.1 c (m'.0 (p.0 ∙ q)), compile_entries-AllPermitted entries b.0 c b.1 m'.1)

-- No scoped filter lets every candidate through.
unscoped :
    (fs : List SourceScopedFilter) (c : Candidate) → any_scoped fs ≡ false → scoped_all fs c ≡ true
unscoped [] c e = refl
unscoped (f ∷ fs) c e = absurd (true≢false e)

plain-unscoped :
    (f : CompiledVectorFilter)
    → requires_metadata f ≡ false
    → any_scoped f.source_scoped_filters ≡ false
unfolding requires_metadata
plain-unscoped f e = ground arith

metadata-scoped_all :
    (f : CompiledVectorFilter) (c : Candidate)
    → matches_metadata f c ≡ true
    → scoped_all f.source_scoped_filters c ≡ true
unfolding matches_metadata
metadata-scoped_all f c e = ground arith

matches-scoped_all :
    (f : CompiledVectorFilter) (c : Candidate)
    → matches f c ≡ true
    → scoped_all f.source_scoped_filters c ≡ true
unfolding matches
matches-scoped_all f c e = elim (Bool-cases (requires_metadata f)) [
  | inl y ↦ metadata-scoped_all f c (ground arith)
  | inr n ↦ unscoped f.source_scoped_filters c (plain-unscoped f n)
]

-- If the source-scoped filters compile, and a compiled filter that has them lets a candidate through, then
-- the candidate meets every constraint that they give for its source kind: its workspace is one of those
-- listed, each field that may not be empty is a list with an item, and each field with allowed values is a
-- list that has one of them.
pub matches-Authorized :
    (filters : Option ScopedFilters) (f : CompiledVectorFilter) (c : Candidate)
    → compile_source_scoped_filters filters ≡ ok f.source_scoped_filters
    → matches f c ≡ true
    → Authorized filters c
unfolding compile_source_scoped_filters
matches-Authorized none f c e m = tt
matches-Authorized (some not_scoped) f c e m = tt
matches-Authorized (some (scoped entries)) f c e m =
    compile_entries-AllPermitted entries f.source_scoped_filters c e (matches-scoped_all f c m)
