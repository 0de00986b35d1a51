-- ===== src/Work/Copying/Laws.antt =====
-- What the assignment of one work to another leaves.
use usb_vhci_libusb.Prelude.{
  ℕ, ◌≡◌, ◌≢◌, refl, sym, ap, subst, ◌∙◌, arith, ==_refl, Option, none, some,
}
use usb_vhci_libusb.Urb.{Urb}
use usb_vhci_libusb.Urb.Object.{UrbMemory, copy_urb}
use usb_vhci_libusb.Urb.Object.Copies.{IsEnough, ArraysFit, copy_urb_self}
use usb_vhci_libusb.Outcome.{done, throws, fault, bad_alloc, ok}
use usb_vhci_libusb.Work.Copying.{Urbs, place, Holder, destroy_holder, copy_holder, assign_holder}

place_self : (urbs : Urbs) (p : ℕ) (v : Option Urb) → place urbs p v p ≡ v
place_self urbs p v = rw (==_refl p) refl

place_other : (urbs : Urbs) (p q : ℕ) (v : Option Urb) → p ≢ q → place urbs p v q ≡ urbs q
place_other urbs p q v apart = ground arith

module _ (m : UrbMemory) (new_address : Urbs → Option ℕ) (urbs : Urbs) (self source : Holder)
    (old u : Urb) (live : urbs self.urb ≡ some old) (held : urbs source.urb ≡ some u) where
  abbrev freed : Urbs
  freed = place urbs self.urb none

  deletes : destroy_holder self urbs ≡ done tt freed
  unfolding destroy_holder
  deletes = rw (live, destroy_holder) refl

  to_itself : self.urb ≡ source.urb → assign_holder m new_address source (urbs, self) ≡ fault
  unfolding assign_holder copy_holder
  to_itself e =
      let gone : freed source.urb ≡ none =
        subst (λ (p : ℕ). freed p ≡ none) e (place_self urbs self.urb none) in
      rw (deletes, assign_holder) (rw (gone, assign_holder) refl)

  starves :
      self.urb ≢ source.urb
      → new_address freed ≡ none
      → assign_holder m new_address source (urbs, self)
        ≡ throws bad_alloc (freed, record source { urb = self.urb })
  unfolding assign_holder copy_holder
  starves apart none_left =
      let there : freed source.urb ≡ some u =
        place_other urbs self.urb source.urb none apart ∙ held in
      rw (deletes, assign_holder) (rw (there, assign_holder) (rw (none_left, assign_holder) refl))

  copies :
      (q : ℕ)
      → self.urb ≢ source.urb
      → new_address freed ≡ some q
      → copy_urb m u ≡ ok u
      → assign_holder m new_address source (urbs, self)
        ≡ done tt (place freed q (some u), record source { urb = q })
  unfolding assign_holder copy_holder
  copies q apart a copied =
      let there : freed source.urb ≡ some u =
        place_other urbs self.urb source.urb none apart ∙ held in
      rw (deletes, assign_holder)
        (rw (there, assign_holder) (rw (a, assign_holder) (rw (copied, assign_holder) refl)))

  -- Assigning a work whose URB fits its counts. With another work, and memory, the old URB is
  -- deleted and the work gets the other's members and an equal URB at an address of its own, all
  -- other URBs stay. A work that is assigned to itself reads the URB that it has deleted. When
  -- `new` fails, the exception leaves a pointer to the deleted URB, and destroying the work then is
  -- undefined.
  pub assign_holder-cases :
      IsEnough m
      → ArraysFit u
      → ((q : ℕ) → new_address freed ≡ some q → freed q ≡ none)
      → (self.urb ≡ source.urb → assign_holder m new_address source (urbs, self) ≡ fault)
        × ((q : ℕ)
            → self.urb ≢ source.urb
            → new_address freed ≡ some q
            → (t : Urbs) × (assign_holder m new_address source (urbs, self)
                ≡ done tt (t, record source { urb = q }))
              × (q ≢ source.urb)
              × (t q ≡ some u)
              × (t source.urb ≡ some u)
              × (q ≢ self.urb → t self.urb ≡ none)
              × ((p : ℕ) → p ≢ q → p ≢ self.urb → t p ≡ urbs p))
        × (self.urb ≢ source.urb
            → new_address freed ≡ none
            → (t : Urbs) × (left : Holder) × (assign_holder m new_address source (urbs, self)
                ≡ throws bad_alloc (t, left))
              × (destroy_holder left t ≡ fault))
  unfolding destroy_holder
  assign_holder-cases enough fit fresh = (
    to_itself,
    λ q apart a.
        let there : freed source.urb ≡ some u =
          place_other urbs self.urb source.urb none apart ∙ held in
        let new : q ≢ source.urb = λ e. ground (arith, sym (fresh q a) ∙ ap freed e ∙ there) in
        (
          place freed q (some u),
          copies q apart a (copy_urb_self m u enough fit),
          new,
          place_self freed q (some u),
          place_other freed q source.urb (some u) new ∙ there,
          λ other. place_other freed q self.urb (some u) other ∙ place_self urbs self.urb none,
          λ p p_q p_self.
              place_other freed q p (some u) (λ e. p_q (sym e))
              ∙ place_other urbs self.urb p none (λ e. p_self (sym e)),
        ),
    λ apart none_left. (
      freed,
      record source { urb = self.urb },
      starves apart none_left,
      rw (place_self urbs self.urb none, destroy_holder) refl,
    ),
  )
