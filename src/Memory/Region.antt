-- ===== src/Memory/Region.antt =====
-- src/memory/mod.rs: `MemoryRegion`, the annotations for where a value lives.
mod Tests
use yidika.Base.{
  ◌≡◌, refl, sym, ap, ◌∙◌, ◌≢◌, ◌↔◌, Bool, true, false, Option, none, some, Text, codes, text_eq,
  text_eq_iff, if◌then◌else◌, Bool-cases, inl, inr,
}

pub data MemoryRegion : Type 0 where
  static stack arena device : MemoryRegion

-- `Display::fmt`
pub display : MemoryRegion → Text
display static = codes "static"
display stack = codes "stack"
display arena = codes "arena"
display device = codes "device"

-- `MemoryRegion::from_annotation`
pub from_annotation : Text → Option MemoryRegion
unfolding text_eq
from_annotation name =
    if text_eq name (codes "static")
    then some static
    else if text_eq name (codes "arena")
    then some arena
    else if text_eq name (codes "device")
    then some device
    else none

printed :
    (name : Text) (r : MemoryRegion)
    → from_annotation name ≡ some r
    → (display r ≡ name) × (r ≢ stack)
unfolding from_annotation display
printed name r e = elim (Bool-cases (text_eq name (codes "static"))) [
  | inl is ↦ named static (codes "static") is (rw is at e) refl (λ k. cc)
  | inr not_static ↦ elim (Bool-cases (text_eq name (codes "arena"))) [
    | inl is ↦ named arena (codes "arena") is (rw is at (rw not_static at e)) refl (λ k. cc)
    | inr not_arena ↦ elim (Bool-cases (text_eq name (codes "device"))) [
      | inl is ↦
          named device (codes "device") is (rw is at (rw not_arena at (rw not_static at e))) refl
            (λ k. cc)
      | inr not_device ↦ absurd (cc (rw not_device at (rw not_arena at (rw not_static at e))))
    ]
  ]
]
  where
    named :
        (q : MemoryRegion) (t : Text)
        → text_eq name t ≡ true
        → some q ≡ some r
        → display q ≡ t
        → (q ≡ stack → ⊥)
        → (display r ≡ name) × (r ≢ stack)
    named q t is same shown other =
        let e' : q ≡ r = cc in
        (sym (ap display e') ∙ shown ∙ sym ((text_eq_iff name t).0 is), λ k. other (e' ∙ k))

read_back : (r : MemoryRegion) → r ≢ stack → from_annotation (display r) ≡ some r
unfolding from_annotation display text_eq
read_back static h = refl
read_back arena h = refl
read_back device h = refl
read_back stack h = absurd (h refl)

-- An annotation is read as a region exactly if the region prints as that text and is not the stack,
-- for which there is no annotation.
pub from_annotation-display :
    (name : Text) (r : MemoryRegion)
    → (from_annotation name ≡ some r) ↔ ((display r ≡ name) × (r ≢ stack))
from_annotation-display name r =
    (printed name r, λ h. ap from_annotation (sym h.0) ∙ read_back r h.1)
