-- ===== src/LocalHcd/Ports/Passes.antt =====
-- What the passes of the background thread leave.
use usb_vhci_libusb.Prelude.{
  ℕ, ◌+◌, ◌-◌, ◌≡◌, ◌⊎◌, inl, inr, refl, true, false, arith, ◌==◌, Bool-cases, Option, Option-cases,
  some, set, get_elem?, ◌==ℤ◌,
}
use usb_vhci_libusb.Kernel.{Header}
use usb_vhci_libusb.PortStat.{PortStat}
use usb_vhci_libusb.Urb.{Urb}
use usb_vhci_libusb.Urb.Object.{from_struct_own}
use usb_vhci_libusb.Work.{
  Work, Constructed, object, refused, new_port_stat_work, new_process_urb_work,
}
use usb_vhci_libusb.Outcome.{Result, ok, raised, undefined, done, Exception}
use usb_vhci_libusb.Hcd.{enqueue_work, on_work_enqueued}
use usb_vhci_libusb.Device.{minus_one}
use usb_vhci_libusb.Hcd.Enqueue.{queued}
use usb_vhci_libusb.LocalHcd.{PortInfo, LocalHcd, Memory, port_from_address}
use usb_vhci_libusb.LocalHcd.Address.{PortsFit, port_from_address-cases}
use usb_vhci_libusb.LocalHcd.Background.{
  update_port, or_new, port_stat_attempt, UrbRound, Pass, with_arrays, load, apply_address,
  queue_urb, urb_attempt, with_ports,
}
use usb_vhci_libusb.LocalHcd.Ports.{IsAddress, left_by_pass, AllLeft}

update_port-IsAddress :
    (nps : PortStat) (info : PortInfo) → IsAddress info → IsAddress (update_port nps info)
unfolding update_port
update_port-IsAddress nps info (inl low) = ground arith
update_port-IsAddress nps info (inr none_given) = ground arith

apply_address-IsAddress :
    (k : Header) (u : Urb) (info : PortInfo)
    → IsAddress info
    → IsAddress (record info { adr = (apply_address k u info.adr).1 })
unfolding apply_address
apply_address-IsAddress k u info (inl low) = ground arith
apply_address-IsAddress k u info (inr none_given) = ground arith

-- What a pass leaves: the state as it was, or a new work at the end of the inbox and a new record
-- of a port, whose address is good if the old one was. `kept` is the object of an earlier pass.
pub data Queues (kept : Option ℕ) (m : Memory) (h : LocalHcd) : LocalHcd → Type 0 where
  same : Queues kept m h h
  queues :
      (i q : ℕ) (v info : PortInfo) (o : Work)
      → or_new kept (m.new_address h.store) ≡ some q
      → get_elem? h.derived.port_info i ≡ some info
      → (IsAddress info → IsAddress v)
      → Queues kept m h (with_ports (λ ps. set ps i v) (queued q o h))

pub Constructed-cases :
    (c : Constructed) → ((x : Exception) × (c ≡ refused x)) ⊎ ((o : Work) × (c ≡ object o))
Constructed-cases (refused x) = inl (x, refl)
Constructed-cases (object o) = inr (o, refl)

Result-cases :
    {A : Type 0} (r : Result A)
    → ((a : A) × (r ≡ ok a)) ⊎ ((x : Exception) × (r ≡ raised x)) ⊎ (r ≡ undefined)
Result-cases (ok a) = inl (a, refl)
Result-cases (raised x) = inr (inl (x, refl))
Result-cases undefined = inr (inr refl)

module _ (k : Header) where
  pub port_stat_attempt-Queues :
      (index : ℕ) (nps : PortStat) (psw : Option ℕ) (m : Memory) (h : LocalHcd)
      → AllLeft (Queues psw m h) (left_by_pass (port_stat_attempt k index nps psw m h))
  unfolding port_stat_attempt enqueue_work on_work_enqueued
  port_stat_attempt-Queues index nps psw m h =
      elim (Option-cases (get_elem? h.derived.port_info (index - 1))) [
        | inl out ↦ rw (out, port_stat_attempt) tt
        | inr (info, at_port) ↦ elim (Option-cases (or_new psw (m.new_address h.store))) [
          | inl starved ↦ rw (at_port, port_stat_attempt) (rw (starved, port_stat_attempt) same)
          | inr (q, a) ↦ elim (Constructed-cases (new_port_stat_work k index nps info.stat)) [
            | inl (x, c) ↦
                rw (at_port, port_stat_attempt)
                  (rw (a, port_stat_attempt) (rw (c, port_stat_attempt) tt))
            | inr (o, c) ↦ elim (Bool-cases m.fits) [
              | inl room ↦
                  rw (at_port, port_stat_attempt)
                    (rw (a, port_stat_attempt)
                      (rw (c, port_stat_attempt)
                        (rw (room) (
                          queues (index - 1) q (update_port nps info) info o a at_port
                            (update_port-IsAddress nps info)))))
              | inr full ↦
                  rw (at_port, port_stat_attempt)
                    (rw (a, port_stat_attempt) (rw (c, port_stat_attempt) (rw (full) same)))
            ]
          ]
        ]
      ]

  -- For a port that the address names.
  queue_urb_at :
      (puw : Option ℕ) (m : Memory) (devadr index : ℕ) (u : Urb) (h : LocalHcd)
      → port_from_address devadr h ≡ done index h
      → (index == 0) ≡ false
      → AllLeft (Queues puw m h) (left_by_pass (queue_urb k puw m devadr u h))
  unfolding queue_urb enqueue_work on_work_enqueued
  queue_urb_at puw m devadr index u h found named =
      elim (Option-cases (or_new puw (m.new_address h.store))) [
        | inl starved ↦ rw (found, queue_urb) (rw (named, queue_urb) (rw (starved, queue_urb) same))
        | inr (q, a) ↦ elim (Option-cases (get_elem? h.derived.port_info (index - 1))) [
          | inl out ↦
              rw (found, queue_urb)
                (rw (named, queue_urb) (rw (a, queue_urb) (rw (out, queue_urb) tt)))
          | inr (info, at_port) ↦
              elim (Constructed-cases
                (new_process_urb_work index (some (apply_address k u info.adr).0))) [
                  | inl (x, c) ↦
                      rw (found, queue_urb)
                        (rw (named, queue_urb)
                          (rw (a, queue_urb) (rw (at_port, queue_urb) (rw (c, queue_urb) tt))))
                  | inr (o, c) ↦ elim (Bool-cases m.fits) [
                    | inl room ↦
                        rw (found, queue_urb)
                          (rw (named, queue_urb)
                            (rw (a, queue_urb)
                              (rw (at_port, queue_urb)
                                (rw (c, queue_urb)
                                  (rw (room) (
                                    queues (index - 1) q
                                      (record info { adr = (apply_address k u info.adr).1 }) info o
                                      a at_port (apply_address-IsAddress k u info)))))))
                    | inr full ↦
                        rw (found, queue_urb)
                          (rw (named, queue_urb)
                            (rw (a, queue_urb)
                              (rw (at_port, queue_urb) (rw (c, queue_urb) (rw (full) same)))))
                  ]
                ]
        ]
      ]

  queue_urb-Queues :
      (puw : Option ℕ) (m : Memory) (devadr : ℕ) (u : Urb) (h : LocalHcd)
      → PortsFit h
      → AllLeft (Queues puw m h) (left_by_pass (queue_urb k puw m devadr u h))
  unfolding queue_urb
  queue_urb-Queues puw m devadr u h fit = elim (port_from_address-cases devadr h fit) [
    | inl (large, thrown) ↦ rw (thrown, queue_urb) tt
    | inr (inl (small, (nowhere, unused))) ↦ rw (nowhere, queue_urb) same
    | inr (inr (j, small, (found, first, back))) ↦
        queue_urb_at puw m devadr (j + 1) u h found (ground arith)
  ]

  pub urb_attempt-Queues :
      (r : UrbRound) (p : Pass) (u : Urb) (h : LocalHcd)
      → PortsFit h
      → AllLeft (Queues p.puw r.memory h) (left_by_pass (urb_attempt k r p u h))
  unfolding urb_attempt
  urb_attempt-Queues r p u h fit =
      elim (Result-cases (from_struct_own k r.urb_memory (with_arrays r u) true)) [
        | inr (inl (x, e)) ↦ rw (e, urb_attempt) tt
        | inr (inr e) ↦ rw (e, urb_attempt) tt
        | inl (v, e) ↦ elim (Option-cases (load r p.res v)) [
          | inl bad ↦ rw (e, urb_attempt) (rw (bad, urb_attempt) tt)
          | inr (fetched, l) ↦ elim (Bool-cases (fetched.value ==ℤ minus_one)) [
            | inl fails ↦ rw (e, urb_attempt) (rw (l, urb_attempt) (rw (fails, urb_attempt) same))
            | inr fine ↦
                rw (e, urb_attempt)
                  (rw (l, urb_attempt)
                    (rw (fine, urb_attempt)
                      (queue_urb-Queues p.puw r.memory u.devadr fetched.output h fit)))
          ]
        ]
      ]
