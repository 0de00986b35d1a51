-- ===== src/Hcd.antt =====
-- src/hcd.cpp and the classes `hcd` and `hcd::callback` of src/libusb_vhci.h: the queue of work
-- between the thread that talks to the kernel and the client. Every method runs under `_lock`, so a
-- call is one step on the object's state.
pub mod Owned
pub mod Next
pub mod Laws
pub mod Finish
pub mod Enqueue
pub mod Cancel
pub mod Session
pub mod Drain
pub mod Fifo
pub mod Thread
use usb_vhci_libusb.Prelude.{
  ℕ, Bool, true, false, not, ◌&&◌, ◌==◌, if◌then◌else◌, Option, none, some, List, [], ◌∷◌, ◌++◌,
  length,
}
use mathlib.Core.Option
use usb_vhci_libusb.Work.{
  Work, Store, put, cancel, process_urb_work, cancel_urb_work, port_stat_work,
}
use usb_vhci_libusb.Outcome.{done, throws, fault, bad_alloc, Method, ◌>>◌, pure, modify}

-- A function pointer and its argument.
pub record Callback : Type 0 where
  pub func : ℕ
  pub arg : ℕ

-- The members of `hcd`, with those that a derived class adds in `derived`. `store` holds the work
-- objects that the containers point to. `notified` is the trace of the callbacks that were called.
pub record Hcd (D : Type 0) : Type 0 where
  pub port_count : ℕ
  pub work_enqueued_callbacks : List Callback
  pub inbox : List ℕ
  pub processing : List ℕ
  pub store : Store
  pub notified : List Callback
  pub derived : D

-- The virtual methods of `hcd` that its own methods call.
pub record Virtual (D : Type 0) : Type 0 where
  pub canceling_work : ℕ → Bool → Method (Hcd D) (Unit {0})
  pub finishing_work : ℕ → Method (Hcd D) (Unit {0})

-- The base class implements them by empty bodies.
abbrev pub base : {D : Type 0} → Virtual D
base = record { canceling_work = λ w in_progress. pure tt; finishing_work = λ w. pure tt }

-- The constructor: a controller without ports is refused.
unfoldable pub construct : {D : Type 0} → ℕ → D → Option (Hcd D)
construct ports d =
    if ports == 0
    then none
    else some (record {
      port_count = ports;
      work_enqueued_callbacks = [];
      inbox = [];
      processing = [];
      store = λ p. none;
      notified = [];
      derived = d;
    })

-- `callback::callback`: a null function is refused.
unfoldable pub new_callback : ℕ → ℕ → Option Callback
new_callback func arg = if func == 0 then none else some (record { func = func; arg = arg })

abbrev pub callback_eq : Callback → Callback → Bool
callback_eq a b = a.func == b.func && a.arg == b.arg

pub erase_callback : Callback → List Callback → List Callback
erase_callback c [] = []
erase_callback c (i ∷ rest) = if callback_eq i c then rest else i ∷ erase_callback c rest

-- `std::list::remove`.
unfoldable pub remove : ℕ → List ℕ → List ℕ
remove w [] = []
remove w (x ∷ xs) = if w == x then remove w xs else x ∷ remove w xs

-- Whether the object is a `process_urb_work` for the URB with this handle.
unfoldable pub is_urb : ℕ → Work → Bool
is_urb handle o = elim o.kind [
  | process_urb_work urb ↦ urb.handle == handle
  | cancel_urb_work _ ↦ false
  | port_stat_work _ _ ↦ false
]

-- The loops of `cancel_process_urb_work`: the first such object of a container, `some none` if
-- there is none, and `none` at a dangling pointer.
unfoldable pub find_urb : Store → ℕ → List ℕ → Option (Option ℕ)
find_urb store handle [] = some none
find_urb store handle (w ∷ rest) =
    let later = find_urb store handle rest in
    elim (store w) [ none ↦ none | some o ↦ if is_urb handle o then some (some w) else later ]

module _ {D : Type 0} where
  -- Calls every registered callback, in order.
  unfoldable pub on_work_enqueued : Method (Hcd D) (Unit {0})
  on_work_enqueued = modify λ h. record h { notified = h.notified ++ h.work_enqueued_callbacks }

  -- `fits` says whether the container finds memory to grow.
  unfoldable pub enqueue_work : Bool → ℕ → Method (Hcd D) (Unit {0})
  enqueue_work fits w h =
      if fits then done tt (record h { inbox = h.inbox ++ w ∷ [] }) else throws bad_alloc h

  -- The loop of `next_work` over the addresses in `inbox`; `len` is their number.
  unfoldable pub next_work_loop : Bool → List ℕ → Method (Hcd D) (Option ℕ × Bool)
  next_work_loop fits [] h = done (none, false) h
  next_work_loop fits (w ∷ rest) h =
      let len = length (w ∷ rest) in
      let popped = record h { inbox = rest } in
      let again = next_work_loop fits rest (record popped { store = put h.store w none }) in
      elim (h.store w) [
        | none ↦ fault
        | some o ↦
            if not o.canceled
            then if fits
              then done (some w, not (len == 1))
                  (record popped { processing = h.processing ++ w ∷ [] })
              else throws bad_alloc popped
            else again
      ]

  unfoldable pub next_work : Bool → Method (Hcd D) (Option ℕ × Bool)
  next_work fits h = next_work_loop fits h.inbox h

  unfoldable pub delete_work : ℕ → Method (Hcd D) (Unit {0})
  delete_work w h = elim (h.store w) [
    | none ↦ fault
    | some o ↦ done tt (record h { store = put h.store w none })
  ]

  unfoldable pub finish_work : Virtual D → ℕ → Method (Hcd D) (Unit {0})
  unfolding delete_work remove
  finish_work v w = do
    v.finishing_work w
    modify λ h. record h { processing = remove w h.processing }
    delete_work w

  -- The destructor's loops, over the addresses in one container.
  delete_all : List ℕ → Method (Hcd D) (Unit {0})
  unfolding delete_work
  delete_all [] h = done tt h
  delete_all (w ∷ rest) h = (delete_work w >> delete_all rest) h

  -- The destructor, after the thread has been joined.
  unfoldable pub destroy : Method (Hcd D) (Unit {0})
  unfolding delete_all
  destroy h = (delete_all h.inbox >> delete_all h.processing) h

  -- `wrk->cancel()`.
  abbrev pub cancel_at : ℕ → Hcd D → Hcd D
  cancel_at w h = record h { store = put h.store w (Option.map cancel (h.store w)) }

  -- A work that still waits is canceled and given back at once; one in processing is only reported.
  unfoldable pub cancel_process_urb_work : Virtual D → ℕ → Method (Hcd D) Bool
  unfolding find_urb
  cancel_process_urb_work v handle h = elim (find_urb h.store handle h.inbox) [
    | none ↦ fault
    | some found ↦ elim found [
      | some wrk ↦
          (do modify (cancel_at wrk); v.canceling_work wrk false; v.finishing_work wrk; pure false)
            h
      | none ↦ elim (find_urb h.store handle h.processing) [
        | none ↦ fault
        | some found ↦ elim found [
          | some wrk ↦ (do v.canceling_work wrk true; pure true) h
          | none ↦ done false h
        ]
      ]
    ]
  ]

  unfoldable pub add_work_enqueued_callback : Bool → Callback → Method (Hcd D) (Unit {0})
  add_work_enqueued_callback fits c h =
      if fits
      then done tt (record h { work_enqueued_callbacks = h.work_enqueued_callbacks ++ c ∷ [] })
      else throws bad_alloc h

  -- Erases the first callback that is equal.
  unfoldable pub remove_work_enqueued_callback : Callback → Hcd D → Hcd D
  unfolding erase_callback
  remove_work_enqueued_callback c h = record h {
    work_enqueued_callbacks = erase_callback c h.work_enqueued_callbacks;
  }
