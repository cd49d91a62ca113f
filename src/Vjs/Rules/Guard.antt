-- ===== src/Vjs/Rules/Guard.antt =====
-- The literals of a rule's guard (core/src/vjs.rs, `render_guard`, `collect_surface_refs`).
use vejas.Base.{
  String, ◌≡◌, refl, ap, subst, Bool, false, ◌&&◌, ◌||◌, Option, none, some, List, [], ◌∷◌, ◌++◌,
  contains, str_eq, eq_iff, if_cases, arith,
}
use vejas.Vjs.Value.{Platform}
use vejas.Vjs.Ast.{Expr, var, field, index, bin}
use vejas.Vjs.Static.Graph.{push}
use vejas.Vjs.Rules.{collect_surface_refs, cmp_symbol, render_atom, comparison, render_guard}

-- No text stands twice in the list.
abbrev pub Distinct : List String → Type 0
Distinct [] = Unit
Distinct (x ∷ xs) = (contains xs x ≡ false) × Distinct xs

-- A variable that a navigation names: its root, or that of one of its indices.
unfoldable pub navigates : {N : Type 0} → Expr N → String → Bool
navigates (var n) x = str_eq n x
navigates (field b name safe) x = navigates b x
navigates (index b i) x = navigates b x || navigates i x
navigates _ x = false

-- A comparison's operands.
unfoldable pub compares : {N : Type 0} → Expr N → String → Bool
compares (bin op a b) x = navigates a x || navigates b x
compares _ x = false

contains-append :
    (xs ys : List String) (x : String) → contains (xs ++ ys) x ≡ (contains xs x || contains ys x)
contains-append [] ys x = refl
contains-append (y ∷ xs) ys x = ground (arith, contains-append xs ys x)

pub contains-push :
    (v : List String) (s x : String) → contains (push v s) x ≡ (contains v x || str_eq s x)
unfolding push
contains-push v s x = ground (arith, contains-append v (s ∷ []) x, eq_iff s x)

Distinct-append :
    (xs : List String) (s : String)
    → Distinct xs
    → contains xs s ≡ false
    → Distinct (xs ++ (s ∷ []))
Distinct-append [] s d e = (refl, tt)
Distinct-append (x ∷ xs) s d e = (
  ground (arith, contains-append xs (s ∷ []) x, eq_iff x s, eq_iff s x, d.0, e),
  Distinct-append xs s d.1 (ground (arith, e)),
)

Distinct-push : (v : List String) (s : String) → Distinct v → Distinct (push v s)
unfolding push
Distinct-push v s d = if_cases Distinct (contains v s) (λ e. d) (λ e. Distinct-append v s d e)

module _ {N : Type 0} (surface : List String) where
  contains-collect :
      (e : Expr N) (out : List String) (x : String)
      → contains (collect_surface_refs e surface out) x
        ≡ (contains out x || (contains surface x && navigates e x))
  unfolding collect_surface_refs navigates
  contains-collect (var n) out x = ground (arith, contains-push out n x, eq_iff n x)
  contains-collect (field b name safe) out x = contains-collect b out x
  contains-collect (index b i) out x =
      ground
        (arith, contains-collect b out x, contains-collect i (collect_surface_refs b surface out) x)
  contains-collect e out x = ground arith

  collect-Distinct :
      (e : Expr N) (out : List String)
      → Distinct out
      → Distinct (collect_surface_refs e surface out)
  unfolding collect_surface_refs
  collect-Distinct (var n) out d =
      if_cases Distinct (contains surface n) (λ e. Distinct-push out n d) (λ e. d)
  collect-Distinct (field b name safe) out d = collect-Distinct b out d
  collect-Distinct (index b i) out d =
      collect-Distinct i (collect_surface_refs b surface out) (collect-Distinct b out d)
  collect-Distinct e out d = d

comparison-refs :
    (o la lb : Option String) (out refs : List String) (text : String)
    → comparison o la lb out ≡ some (text, refs)
    → out ≡ refs
comparison-refs (some sym) (some la) (some lb) out refs text e = ground (arith, e)
comparison-refs none la lb out refs text e = ground (arith, e)
comparison-refs (some sym) none lb out refs text e = ground (arith, e)
comparison-refs (some sym) (some la) none out refs text e = ground (arith, e)

-- The literals of a guard that is rendered are the names of the surface that its operands navigate
-- from or index by, each once.
pub render_guard-literals :
    (P : Platform) (cond : Expr P.Number) (surface : List String) (text : String)
    (refs : List String)
    → render_guard P cond surface ≡ some (text, refs)
    → Distinct refs × ((x : String) → contains refs x ≡ (contains surface x && compares cond x))
unfolding render_guard compares
render_guard-literals P (bin op a b) surface text refs e =
    let out = collect_surface_refs a surface [] in
    let same = comparison-refs (cmp_symbol op) (render_atom P a) (render_atom P b) _ refs text e in
    (
      subst Distinct same (collect-Distinct surface b out (collect-Distinct surface a [] tt)),
      λ x. ground (
        arith,
        ap (λ rs. contains rs x) same,
        contains-collect surface a [] x,
        contains-collect surface b out x,
      ),
    )
render_guard-literals P cond surface text refs e = ground (arith, e)
