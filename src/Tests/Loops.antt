-- ===== src/Tests/Loops.antt =====
-- Two turns of the example's loop: the end of a reset, and SET_ADDRESS.
use usb_vhci_libusb.Prelude.{◌≡◌, refl, true, none, some, [], ◌∷◌, pos, arith, has}
use usb_vhci_libusb.Errno.{linux}
use usb_vhci_libusb.Kernel.{sample, sample-IsHeader}
use usb_vhci_libusb.PortStat.{
  PortStat, no_stat, get_reset_changed, get_reset, get_enable, get_connection_changed,
}
use usb_vhci_libusb.Urb.{is_out}
use usb_vhci_libusb.Device.{answer}
use usb_vhci_libusb.Device.Fetch.{
  IocUrb, IocWork, handle_payload, port_stat_payload, urb_payload, fetch_work, fetch_work_timeout,
}
use usb_vhci_libusb.Device.Fetch.Laws.{described, fetch_work_timeout-urb}
use usb_vhci_libusb.Example.{is_set_address}
use usb_vhci_libusb.Example.Main.{Turn, main_loop, initial}
use usb_vhci_libusb.Example.Main.Serving.{IsServed}
use usb_vhci_libusb.Example.Main.Attends.{GoesOn, fetched_by, TurnReady-some, main_loop-attends}

abbrev plain : IocUrb
plain = record {
  address = 0;
  endpoint = 0;
  type = 2;
  flags = 0;
  buffer_length = pos 0;
  interval = pos 0;
  packet_count = pos 0;
  w_value = 7;
  w_index = 0;
  w_length = 0;
  bm_request_type = 0;
  b_request = 5;
}

-- Connection, enable and power are set, and the reset has changed.
abbrev after_reset : PortStat
after_reset = record { status = 0x0103; change = 0x0010; flags = 0 }

abbrev reset_work : IocWork
reset_work = record { type = 0; handle = 0; port = after_reset; index = 1; urb = plain }

abbrev address_work : IocWork
address_work = record { type = 1; handle = 41; port = no_stat; index = 0; urb = plain }

abbrev meeting : IocWork → Turn
meeting w = record {
  before = record { payload = handle_payload 0; type = 9 };
  ioctl = λ fd timeout. answer w;
  accepts = λ fd c. true;
  arrays = record {
    bytes = none;
    packets = none;
    malloc = true;
    reply = answer (record { bytes = none; packets = [] });
  };
}

reset_fetched :
    fetched_by linux sample (pos 3) (meeting reset_work) ≡ some (port_stat_payload 1 after_reset)
unfolding fetched_by fetch_work fetch_work_timeout
reset_fetched = refl

address_fetched :
    fetched_by linux sample (pos 3) (meeting address_work)
    ≡ some (urb_payload (described sample address_work))
unfolding fetched_by fetch_work is_out has
address_fetched =
    rw
      (fetch_work_timeout-urb linux sample address_work (meeting address_work).before
        sample-IsHeader refl refl)
      refl

served : IsServed (meeting address_work).arrays (described sample address_work)
served = record {
  malloc = refl;
  room = omega arith;
  packets = omega arith;
  fetched = record { bytes = none; packets = [] };
  answers = refl;
  bytes = omega arith;
  enough = omega arith;
}

main_loop-attends_example :
    GoesOn
      (main_loop linux sample (pos 3) (meeting reset_work ∷ meeting address_work ∷ []) initial)
      (41 ∷ [])
      7
unfolding get_reset_changed get_reset get_enable get_connection_changed is_set_address has is_out
    fetched_by fetch_work fetch_work_timeout
main_loop-attends_example =
    main_loop-attends linux sample (pos 3) (meeting reset_work ∷ meeting address_work ∷ []) initial
      sample-IsHeader
      (
        TurnReady-some linux sample (pos 3) (meeting reset_work) _ reset_fetched (refl, λ c. refl),
        (TurnReady-some linux sample (pos 3) (meeting address_work) _ address_fetched served, tt),
      )
