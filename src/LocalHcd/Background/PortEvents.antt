-- ===== src/LocalHcd/Background/PortEvents.antt =====
-- A port event of the kernel is recorded and queued.
use usb_vhci_libusb.Prelude.{
  ℕ, ◌-◌, ◌≡◌, ◌≢◌, refl, sym, true, false, arith, ==_refl, ap, ◌∙◌, Bool, has, not, ◌&&◌,
  if◌then◌else◌, Option, none, some, [], ◌∷◌, ◌++◌, get_elem?, set, get_elem?-set_self,
  get_elem?-set_ne, get_elem?-lt,
}
use usb_vhci_libusb.Kernel.{Header}
use usb_vhci_libusb.PortStat.{
  PortStat, get_connection_changed, get_reset_changed, get_reset, get_enable,
}
use usb_vhci_libusb.PortStat.Triggers.{trigger_flags}
use usb_vhci_libusb.Work.{Work, port_stat_work, object, new_port_stat_work}
use usb_vhci_libusb.Hcd.{enqueue_work, on_work_enqueued}
use usb_vhci_libusb.Hcd.Owned.{Owns}
use usb_vhci_libusb.Hcd.Laws.{Grows, AllSound}
use usb_vhci_libusb.Hcd.Enqueue.{queued, queued-Grows}
use usb_vhci_libusb.LocalHcd.{PortInfo, LocalHcd, Memory, IsFresh}
use usb_vhci_libusb.LocalHcd.Laws.{Sound}
use usb_vhci_libusb.LocalHcd.Background.{
  finished, with_ports, update_port, or_new, port_stat_attempt,
}

-- The object for a port event, which compares the new state with the recorded one.
abbrev pub event_work : Header → ℕ → PortStat → PortInfo → Work
event_work k index nps info = record {
  port = index;
  canceled = false;
  kind = port_stat_work nps (trigger_flags k nps info.stat);
}

-- The object after the event: the work is at the end of the inbox and the port's record is new.
abbrev pub recorded : Header → ℕ → PortStat → PortInfo → ℕ → LocalHcd → LocalHcd
recorded k index nps info q h =
    with_ports (λ ps. set ps (index - 1) (update_port nps info))
      (queued q (event_work k index nps info) h)

-- The end of a reset that leaves the port enabled, by the bits of the kernel's words.
abbrev pub reset_is_over : PortStat → Bool
reset_is_over nps = has nps.change 0x0010 && (has nps.status 0x0002 && not (has nps.status 0x0010))

-- The record of a port after an event: the kernel's words, and the address of the device, which is
-- 0 after a reset and 0xff, no address, after a change of the connection.
abbrev pub noted : PortStat → PortInfo → PortInfo
noted nps info = record {
  adr = if reset_is_over nps then 0 else if has nps.change 0x0001 then 0xff else info.adr;
  stat = nps;
}

update_port_lem : (nps : PortStat) (info : PortInfo) → update_port nps info ≡ noted nps info
unfolding update_port get_connection_changed get_reset_changed get_reset get_enable
update_port_lem nps info = ground arith

pub new_event_work :
    (k : Header) (index : ℕ) (nps : PortStat) (info : PortInfo)
    → index ≢ 0
    → new_port_stat_work k index nps info.stat ≡ object (event_work k index nps info)
unfolding new_port_stat_work
new_event_work k index nps info h = ground arith

pub attempt_queues :
    (k : Header) (index : ℕ) (nps : PortStat) (psw : Option ℕ) (m : Memory) (h : LocalHcd)
    (info : PortInfo) (q : ℕ)
    → index ≢ 0
    → get_elem? h.derived.port_info (index - 1) ≡ some info
    → or_new psw (m.new_address h.store) ≡ some q
    → m.fits ≡ true
    → port_stat_attempt k index nps psw m h ≡ finished (recorded k index nps info q h)
unfolding port_stat_attempt enqueue_work on_work_enqueued
attempt_queues k index nps psw m h info q named at_port a f =
    rw (at_port, port_stat_attempt)
      (rw (a, port_stat_attempt)
        (rw (new_event_work k index nps info named, port_stat_attempt) (rw f)))

-- The record that the pass leaves.
pub recorded_at :
    (k : Header) (index : ℕ) (nps : PortStat) (info : PortInfo) (q : ℕ) (h : LocalHcd)
    → get_elem? h.derived.port_info (index - 1) ≡ some info
    → get_elem? (recorded k index nps info q h).derived.port_info (index - 1)
      ≡ some (noted nps info)
recorded_at k index nps info q h at_port =
    get_elem?-set_self h.derived.port_info (index - 1) _
      (get_elem?-lt h.derived.port_info (index - 1) at_port)
    ∙ ap some (update_port_lem nps info)

-- A pass that finds memory queues one work for the port, at the end of the inbox, with the state
-- that the kernel sent and the triggers of its change against the recorded state; it replaces the
-- record of this port only, and keeps the ownership and every other object. The index must name a
-- port.
pub port_stat_attempt-queues :
    (k : Header) (index : ℕ) (nps : PortStat) (m : Memory) (h : LocalHcd) (info : PortInfo)
    (q j : ℕ)
    → IsFresh m
    → Owns h
    → AllSound (Sound k) h
    → index ≢ 0
    → get_elem? h.derived.port_info (index - 1) ≡ some info
    → m.new_address h.store ≡ some q
    → m.fits ≡ true
    → j ≢ index - 1
    → (t : LocalHcd) × (port_stat_attempt k index nps none m h ≡ finished t)
      × Grows (Sound k) h t
      × (t.inbox ≡ h.inbox ++ q ∷ [])
      × (t.store q ≡ some (event_work k index nps info))
      × (get_elem? t.derived.port_info (index - 1) ≡ some (noted nps info))
      × (get_elem? t.derived.port_info j ≡ get_elem? h.derived.port_info j)
port_stat_attempt-queues k index nps m h info q j fresh own sound named at_port a f other = (
  recorded k index nps info q h,
  attempt_queues k index nps none m h info q named at_port a f,
  record {
    owns = grown.owns;
    sound = grown.sound;
    same_processing = grown.same_processing;
    added = grown.added;
    same_objects = grown.same_objects;
  },
  refl,
  ground (arith, ==_refl q),
  recorded_at k index nps info q h at_port,
  get_elem?-set_ne h.derived.port_info _ (λ e. other (sym e)),
)
  where
    grown : Grows (Sound k) h (queued q (event_work k index nps info) h)
    grown =
        queued-Grows (Sound k) q (event_work k index nps info) h (fresh h.store q a) own sound tt
