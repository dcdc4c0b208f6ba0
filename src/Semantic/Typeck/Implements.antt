-- ===== src/Semantic/Typeck/Implements.antt =====
-- When a class passes: it implements the interfaces that it names.
use yidika.Semantic.Compat.{types_compatible_params, types_compatible}
use yidika.Diagnostics.{Span}
use yidika.Semantic.Env.{MethodDef, FnSig, InterfaceDef, ClassDef}
use yidika.Syntax.Items.{Items}
use yidika.Syntax.Ast.{Param}
use yidika.Semantic.Typeck.Classes.{
  Outcome, check_class, or_complaint, went_on, unmet_method, unmet, unmet_methods, unmet_interface,
  add_methods, resolve_params, finish_class,
}
use yidika.Semantic.Typeck.{Complaint, Context, Scope, resolve_type}
use yidika.Base.{
  ◌≡◌, refl, ◌↔◌, Text, List, [], ◌∷◌, Option, some, none, true, Bool-cases, arith, map, Table,
  no_entries, inl, inr,
}

-- A method of the class under the name `f`, with parameters that those of the interface accept and a
-- return type that the interface's accepts.
pub record Implemented (k : Context) (m : Table MethodDef) (f : Text) (sig : FnSig) : Type 0 where
  pub method : MethodDef
  pub found : m f ≡ some method
  pub params_fit :
      types_compatible_params (map (resolve_type k) sig.params) (resolve_params k method.params)
      ≡ true
  pub return_fits : types_compatible sig.ret_type method.ret_type ≡ true

pub data AllImplemented (k : Context) (m : Table MethodDef) : List (Text × FnSig) → Type 0 where
  no_method_left : AllImplemented k m []
  one_more :
      (f : Text) (sig : FnSig) (rest : List (Text × FnSig))
      → Implemented k m f sig
      → AllImplemented k m rest
      → AllImplemented k m ((f, sig) ∷ rest)

-- Each of the interfaces is known and all of its methods are implemented.
pub data ImplementsAll (k : Context) (m : Table MethodDef) : List Text → Type 0 where
  no_interface : ImplementsAll k m []
  one_interface :
      (iface : Text) (rest : List Text) (def : InterfaceDef)
      → k.env.interfaces iface ≡ some def
      → AllImplemented k m def.methods
      → ImplementsAll k m rest
      → ImplementsAll k m (iface ∷ rest)

both_none : (o p : Option Complaint) → or_complaint o p ≡ none → (o ≡ none) × (p ≡ none)
both_none none p h = (refl, h)
both_none (some c) p h = absurd (ground arith)

module _ (k : Context) (cls : Text) (m : Table MethodDef) where
  met_sound :
      (iface f : Text) (sig : FnSig) (o : Option MethodDef)
      → m f ≡ o
      → unmet_method k cls iface f sig o ≡ none
      → Implemented k m f sig
  unfolding unmet_method
  met_sound iface f sig none e h = absurd (ground arith)
  met_sound iface f sig (some def) e h =
      elim (Bool-cases
        (types_compatible_params (map (resolve_type k) sig.params) (resolve_params k def.params))) [
          | inl p ↦ elim (Bool-cases (types_compatible sig.ret_type def.ret_type)) [
            | inl q ↦ record { method = def; found = e; params_fit = p; return_fits = q }
            | inr q ↦ absurd (ground arith)
          ]
          | inr p ↦ absurd (ground arith)
        ]

  met_complete :
      (iface f : Text) (sig : FnSig)
      → Implemented k m f sig
      → unmet_method k cls iface f sig (m f) ≡ none
  unfolding unmet_method
  met_complete iface f sig i = rw (i.found, i.params_fit, i.return_fits) refl

  methods_sound :
      (iface : Text) (ms : List (Text × FnSig))
      → unmet_methods k cls iface m ms ≡ none
      → AllImplemented k m ms
  unfolding unmet_methods
  methods_sound iface [] h = no_method_left
  methods_sound iface ((f, sig) ∷ rest) h =
      let (here, there) =
        both_none (unmet_method k cls iface f sig (m f)) (unmet_methods k cls iface m rest) h in
      one_more f sig rest (met_sound iface f sig (m f) refl here) (methods_sound iface rest there)

  methods_complete :
      (iface : Text) (ms : List (Text × FnSig))
      → AllImplemented k m ms
      → unmet_methods k cls iface m ms ≡ none
  unfolding unmet_methods
  methods_complete iface _ no_method_left = refl
  methods_complete iface _ (one_more f sig rest i a) =
      rw (met_complete iface f sig i) (methods_complete iface rest a)

  interfaces_sound : (ifaces : List Text) → unmet k cls m ifaces ≡ none → ImplementsAll k m ifaces
  unfolding unmet
  interfaces_sound [] h = no_interface
  interfaces_sound (iface ∷ rest) h =
      let (here, there) =
        both_none (unmet_interface k cls iface m (k.env.interfaces iface)) (unmet k cls m rest) h in
      of (k.env.interfaces iface) refl here (interfaces_sound rest there)
    where
      of :
          (o : Option InterfaceDef)
          → k.env.interfaces iface ≡ o
          → unmet_interface k cls iface m o ≡ none
          → ImplementsAll k m rest
          → ImplementsAll k m (iface ∷ rest)
      of none e i a = absurd (ground arith)
      of (some def) e i a = one_interface iface rest def e (methods_sound iface def.methods i) a

  interfaces_complete :
      (ifaces : List Text) → ImplementsAll k m ifaces → unmet k cls m ifaces ≡ none
  unfolding unmet
  interfaces_complete _ no_interface = refl
  interfaces_complete _ (one_interface iface rest def e a r) =
      rw (e, methods_complete iface def.methods a) (interfaces_complete rest r)

-- The check of a class goes on.
pub record GoesOn (o : Outcome) : Type 0 where
  pub context : Context
  pub scope : Scope
  pub on : o ≡ went_on context scope

-- A class without a parent passes exactly if every interface that it names is known and the class has
-- a compatible method for each of the interface's methods.
pub check_class-ImplementsAll :
    (k : Context) (x : Text) (ifaces : List Text) (fields : List Param) (methods : Items)
    (gs : List Text) (span : Span) (s : Scope)
    → GoesOn (check_class x none ifaces fields methods gs span k s)
      ↔ ImplementsAll k (add_methods k methods no_entries) ifaces
unfolding check_class
check_class-ImplementsAll k x ifaces fields methods gs span s = (forth, back)
  where
    def : ClassDef
    def = record {
      fields = fields;
      methods = add_methods k methods no_entries;
      generics = gs;
      interfaces = ifaces;
      extends = none;
    }

    finished : (o : Option Complaint) → GoesOn (finish_class x def span k s o) → o ≡ none
    finished none g = refl
    finished (some c) g = absurd (ground (arith, g.on))

    forth :
        GoesOn (check_class x none ifaces fields methods gs span k s)
        → ImplementsAll k (add_methods k methods no_entries) ifaces
    forth g =
        interfaces_sound k x (add_methods k methods no_entries) ifaces
          (finished (unmet k x (add_methods k methods no_entries) ifaces) g)

    goes : (o : Option Complaint) → o ≡ none → GoesOn (finish_class x def span k s o)
    goes none e = record { context = _; scope = _; on = refl }
    goes (some c) e = absurd (ground arith)

    back :
        ImplementsAll k (add_methods k methods no_entries) ifaces
        → GoesOn (check_class x none ifaces fields methods gs span k s)
    back i =
        goes (unmet k x (add_methods k methods no_entries) ifaces)
          (interfaces_complete k x (add_methods k methods no_entries) ifaces i)
