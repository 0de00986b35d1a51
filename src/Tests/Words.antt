-- ===== src/Tests/Words.antt =====
-- Status codes, port states and port functions.
use usb_vhci_libusb.Prelude.{◌≡◌, refl, true, false, if◌then◌else◌, negsuc, has}
use usb_vhci_libusb.Errno.{linux}
use usb_vhci_libusb.Kernel.{sample, sample-IsHeader}
use usb_vhci_libusb.Status.{stall, to_errno}
use usb_vhci_libusb.PortStat.{PortStat}
use usb_vhci_libusb.PortStat.Accessors.{ChangeFlag}
use usb_vhci_libusb.PortStat.Flags.{of_change, resuming, same, read, write, read-write}
use usb_vhci_libusb.PortStat.Triggers.{
  port_stat_triggers, trigger_flags, triggered, edges, triggers_tell,
}

-- -EPIPE stands for a stalled endpoint, and an error of a URB that is not isochronous is lost.
stalled : to_errno linux stall false ≡ negsuc 31
unfolding to_errno
stalled = refl

-- A powered port with a device.
abbrev connected : PortStat
connected = record { status = 0x0101; change = 0x0001; flags = 0 }

-- The same while it is reset.
abbrev resetting : PortStat
resetting = record { status = 0x0111; change = 0; flags = 0 }

reset_triggers : port_stat_triggers sample resetting connected ≡ 0x08
unfolding port_stat_triggers has
reset_triggers = refl

read-write_example :
    read sample resuming (write sample (of_change ChangeFlag.enable) true connected)
    ≡ (if same resuming (of_change ChangeFlag.enable) then true else read sample resuming connected)
read-write_example =
    read-write sample sample-IsHeader resuming (of_change ChangeFlag.enable) true connected

triggers_tell_example :
    (triggered (port_stat_triggers sample resetting connected) ≡ edges sample resetting connected)
    × (trigger_flags sample resetting connected ≡ port_stat_triggers sample resetting connected)
triggers_tell_example = triggers_tell sample resetting connected
