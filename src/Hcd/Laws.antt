-- ===== src/Hcd/Laws.antt =====
-- What `hcd` expects of the virtual methods of a derived class.
use usb_vhci_libusb.Prelude.{
  ℕ, ◌≡◌, refl, sym, subst, List, [], ◌++◌, ◌==◌, Bool-cases, Option, ◌⊎◌, inl, inr, true, false,
  is_some, some,
}
use mathlib.Core.Option.{some-injective}
use mathlib.Core.List.{append-nil}
use usb_vhci_libusb.Work.{Work, Store, put, cancel}
use usb_vhci_libusb.Outcome.{done, throws, Exception}
use usb_vhci_libusb.Hcd.{Hcd, Virtual, base}
use usb_vhci_libusb.Hcd.Owned.{Owns}

-- A store whose objects satisfy a predicate still does after a good object is put into it.
pub put_sound :
    (Sound : Work → Type 0) (store : Store) (q : ℕ) (v : Option Work)
    → ((o : Work) → v ≡ some o → Sound o)
    → ((p : ℕ) (o : Work) → store p ≡ some o → Sound o)
    → (p : ℕ) (o : Work) → put store q v p ≡ some o
    → Sound o
put_sound Sound store q v good old p o e = elim (Bool-cases (q == p)) [
  | inl here ↦ good o (rw here at e)
  | inr there ↦ old p o (rw there at e)
]

pub sound_some :
    (Sound : Work → Type 0) (o : Work) → Sound o → (r : Work) → some o ≡ some r → Sound r
sound_some Sound o sound r e = subst Sound (some-injective _ _ e) sound

module _ {D : Type 0} where
  -- The containers, the objects and the callbacks stay as they were.
  pub record Frames (h t : Hcd D) : Type 0 where
    pub same_inbox : t.inbox ≡ h.inbox
    pub same_processing : t.processing ≡ h.processing
    pub same_store : t.store ≡ h.store
    pub same_callbacks : t.work_enqueued_callbacks ≡ h.work_enqueued_callbacks

  -- Every live object satisfies `Sound`.
  abbrev pub AllSound : (Work → Type 0) → Hcd D → Type 0
  AllSound Sound h = (p : ℕ) (o : Work) → h.store p ≡ some o → Sound o

  -- New work may be queued; the objects that were there stay.
  pub record Grows (Sound : Work → Type 0) (h t : Hcd D) : Type 0 where
    pub owns : Owns t
    pub sound : AllSound Sound t
    pub same_processing : t.processing ≡ h.processing
    pub added : (qs : List ℕ) × (t.inbox ≡ h.inbox ++ qs)
    pub same_objects : (p : ℕ) → is_some (h.store p) ≡ true → t.store p ≡ h.store p

  -- `Sound` is what the derived class needs of an object that it gives back.
  pub record IsVirtual (Sound : Work → Type 0) (v : Virtual D) : Type 0 where
    pub sound-cancel : (o : Work) → Sound o → Sound (cancel o)
    pub finishing :
        (w : ℕ) (h : Hcd D) (o : Work)
        → h.store w ≡ some o
        → Sound o
        → (t : Hcd D) × (v.finishing_work w h ≡ done tt t) × Frames h t
    pub waiting :
        (w : ℕ) (h : Hcd D) (o : Work)
        → h.store w ≡ some o
        → (t : Hcd D) × (v.canceling_work w false h ≡ done tt t) × Frames h t
    pub reporting :
        (w : ℕ) (h : Hcd D) (o : Work)
        → h.store w ≡ some o
        → Owns h
        → AllSound Sound h
        → (t : Hcd D) × Grows Sound h t
          × ((v.canceling_work w true h ≡ done tt t)
              ⊎ ((e : Exception) × (v.canceling_work w true h ≡ throws e t)))

  -- The empty bodies of the base class satisfy it.
  pub base-IsVirtual : IsVirtual (λ o. Unit {0}) base
  base-IsVirtual = record {
    sound-cancel = λ o s. tt;
    finishing = λ w h o live s. (
      h,
      refl,
      record {
        same_inbox = refl;
        same_processing = refl;
        same_store = refl;
        same_callbacks = refl;
      },
    );
    waiting = λ w h o live. (
      h,
      refl,
      record {
        same_inbox = refl;
        same_processing = refl;
        same_store = refl;
        same_callbacks = refl;
      },
    );
    reporting = λ w h o live own sound. (
      h,
      record {
        owns = own;
        sound = sound;
        same_processing = refl;
        added = ([], sym (append-nil h.inbox));
        same_objects = λ p _. refl;
      },
      inl refl,
    );
  }
