-- ===== src/LocalHcd/Ports/Calls.antt =====
-- The calls of the clients leave the ports' records.
use usb_vhci_libusb.Prelude.{ℕ, inl, inr, Bool, Bool-cases, Option-cases, none, List, [], ◌∷◌}
use usb_vhci_libusb.Errno.{Errno}
use usb_vhci_libusb.Kernel.{Header}
use usb_vhci_libusb.Work.{put}
use usb_vhci_libusb.Outcome.{Outcome, Leaves, Leaves->>=}
use usb_vhci_libusb.Hcd.{remove, next_work_loop, delete_work, finish_work, cancel_process_urb_work}
use usb_vhci_libusb.LocalHcd.{LocalHcd, Memory, local, finishing_work}
use usb_vhci_libusb.LocalHcd.Ports.{PortsWell}
use usb_vhci_libusb.LocalHcd.Ports.Methods.{
  IsKept, finishing_work-keeps, cancel_process_urb_work-keeps,
}

module _ (count : ℕ) where
  abbrev Leaving : {A : Type 0} → Outcome LocalHcd A → Type 0
  Leaving = Leaves (PortsWell count)

  pub next_work_loop-PortsWell :
      (fits : Bool) (xs : List ℕ) (h : LocalHcd)
      → PortsWell count h
      → Leaving (next_work_loop fits xs h)
  unfolding next_work_loop
  next_work_loop-PortsWell fits [] h well = well
  next_work_loop-PortsWell fits (w ∷ rest) h well = elim (Option-cases (h.store w)) [
    | inl dangling ↦ rw (dangling, next_work_loop) tt
    | inr (o, live) ↦ elim (Bool-cases o.canceled) [
      | inl gone ↦
          rw (live, next_work_loop)
            (rw (gone, next_work_loop)
              (next_work_loop-PortsWell fits rest
                (record h { inbox = rest; store = put h.store w none })
                (record {
                  ports = well.ports;
                  records = well.records;
                  addresses = well.addresses;
                })))
      | inr waits ↦ elim (Bool-cases fits) [
        | inl room ↦
            rw (live, next_work_loop)
              (rw (waits, next_work_loop)
                (rw (room, next_work_loop)
                  (record {
                    ports = well.ports;
                    records = well.records;
                    addresses = well.addresses;
                  })))
        | inr full ↦
            rw (live, next_work_loop)
              (rw (waits, next_work_loop)
                (rw (full, next_work_loop)
                  (record {
                    ports = well.ports;
                    records = well.records;
                    addresses = well.addresses;
                  })))
      ]
    ]
  ]

  delete_work-PortsWell : (w : ℕ) (h : LocalHcd) → PortsWell count h → Leaving (delete_work w h)
  unfolding delete_work
  delete_work-PortsWell w h well = elim (Option-cases (h.store w)) [
    | inl dangling ↦ rw (dangling, delete_work) tt
    | inr (o, live) ↦
        rw (live, delete_work)
          (record { ports = well.ports; records = well.records; addresses = well.addresses })
  ]

  PortsWell-IsKept : (m : Memory) → IsKept m (PortsWell count)
  PortsWell-IsKept m = record {
    given = λ h g well. record {
      ports = well.ports;
      records = well.records;
      addresses = well.addresses;
    };
    marked = λ h w well. record {
      ports = well.ports;
      records = well.records;
      addresses = well.addresses;
    };
    queues = λ h q o a well. record {
      ports = well.ports;
      records = well.records;
      addresses = well.addresses;
    };
    undone = λ h q o a well. record {
      ports = well.ports;
      records = well.records;
      addresses = well.addresses;
    };
  }

  module _ (e : Errno) (k : Header) (m : Memory) where
    pub finish_work-PortsWell :
        (w : ℕ) (h : LocalHcd) → PortsWell count h → Leaving (finish_work (local e k m) w h)
    unfolding finish_work
    finish_work-PortsWell w h well =
        Leaves->>= (PortsWell count) _
          (λ _ t kept.
            delete_work-PortsWell w (record t { processing = remove w t.processing })
              (record { ports = kept.ports; records = kept.records; addresses = kept.addresses }))
          (finishing_work e k m w) h
          (finishing_work-keeps e k m (PortsWell count) (PortsWell-IsKept m) w h well)

    pub cancel_process_urb_work-PortsWell :
        (handle : ℕ) (h : LocalHcd)
        → PortsWell count h
        → Leaving (cancel_process_urb_work (local e k m) handle h)
    cancel_process_urb_work-PortsWell =
        cancel_process_urb_work-keeps e k m (PortsWell count) (PortsWell-IsKept m)
