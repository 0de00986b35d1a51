-- ===== src/LocalHcd/Background/Rounds.antt =====
-- The passes of `local_hcd::bg_work` for one URB, with the loops that wait for memory.
use usb_vhci_libusb.Prelude.{Bool, true, false, ◌&&◌, if◌then◌else◌, List, [], ◌∷◌}
use usb_vhci_libusb.Kernel.{Header}
use usb_vhci_libusb.Urb.{Urb}
use usb_vhci_libusb.Device.Fetch.{nonzero}
use usb_vhci_libusb.LocalHcd.{LocalHcd}
use usb_vhci_libusb.LocalHcd.Background.{
  finished, again, terminated, Ending, handled, given_up, still_waiting, crashed, UrbRound, Pass,
  urb_attempt,
}

-- The failures of `new(std::nothrow)` in one pass before it succeeds, for the buffer, the packets
-- and the URB object: after each, whether the thread finds itself shut down.
pub record Waits : Type 0 where
  pub bytes : List Bool
  pub packets : List Bool
  pub object : List Bool

-- One such loop: whether the memory is got.
abbrev pub wait_for : List Bool → Bool
wait_for [] = true
wait_for (true ∷ failures) = false
wait_for (false ∷ failures) = wait_for failures

-- Whether a pass gets the memory for the URB; otherwise the thread leaves `bg_work`.
abbrev pub acquires : Waits → Urb → Bool
acquires w u =
    (if nonzero u.buffer_length then wait_for w.bytes else true)
    && ((if nonzero u.packet_count then wait_for w.packets else true) && wait_for w.object)

-- What happens before a later pass of `retry_pu`, and what that pass meets.
pub record UrbRetry : Type 0 where
  pub others : LocalHcd → LocalHcd
  pub shutdown : Bool
  pub waits : Waits
  pub round : UrbRound

-- All passes for one URB; the retries given are those after the first pass.
unfoldable pub urb_rounds :
    Header → Waits → UrbRound → Pass → Urb → List UrbRetry → LocalHcd → Ending × LocalHcd
urb_rounds k w r p u [] h =
    if acquires w u
    then elim (urb_attempt k r p u h) [
      | finished t ↦ (handled, t)
      | again kept t ↦ (still_waiting, t)
      | terminated ↦ (crashed, h)
    ]
    else (given_up, h)
urb_rounds k w r p u (s ∷ retries) h =
    let passes = elim (urb_attempt k r p u h) as (λ a. Ending × LocalHcd) [
      | finished t ↦ (handled, t)
      | again kept t ↦
          let retried = urb_rounds k s.waits s.round kept u retries (s.others t) in
          if s.shutdown then (given_up, s.others t) else retried
      | terminated ↦ (crashed, h)
    ] in
    if acquires w u then passes else (given_up, h)
