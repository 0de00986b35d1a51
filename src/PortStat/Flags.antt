-- ===== src/PortStat/Flags.antt =====
-- The fourteen flags of a port's state, over all three words.
use usb_vhci_libusb.Prelude.{◌≡◌, refl, Bool, true, false, ◌==◌, if◌then◌else◌}
use usb_vhci_libusb.Kernel.{Header, IsHeader}
use usb_vhci_libusb.PortStat.{PortStat, get_resuming, set_resuming}
use usb_vhci_libusb.PortStat.Accessors.{
  Flag, bit_of, get, put, get_lem, put_lem, ChangeFlag, change_bit, get_changed, put_changed,
  get_changed_lem, put_changed_lem, get-put, get_changed-put_changed, get_resuming-set_resuming,
}

pub data Field : Type 0 where
  of_status : Flag → Field
  of_change : ChangeFlag → Field
  resuming : Field

abbrev pub same : Field → Field → Bool
same (of_status f) (of_status g) = bit_of f == bit_of g
same (of_status f) (of_change g) = false
same (of_status f) resuming = false
same (of_change f) (of_status g) = false
same (of_change f) (of_change g) = change_bit f == change_bit g
same (of_change f) resuming = false
same resuming (of_status g) = false
same resuming (of_change g) = false
same resuming resuming = true

abbrev pub read : Header → Field → PortStat → Bool
read k (of_status f) = get f
read k (of_change f) = get_changed f
read k resuming = get_resuming k

abbrev pub write : Header → Field → Bool → PortStat → PortStat
write k (of_status f) = put f
write k (of_change f) = put_changed f
write k resuming = set_resuming k

-- The setter of each of the fourteen flags determines what its own getter reads, and leaves what
-- the thirteen other getters read. The header's flag for resuming must be one bit of a byte.
pub read-write :
    (k : Header)
    → IsHeader k
    → (a b : Field) (v : Bool) (s : PortStat)
    → read k a (write k b v s) ≡ (if same a b then v else read k a s)
unfolding get_resuming set_resuming
read-write k is (of_status f) (of_status g) v s = (get-put f g v s).0
read-write k is (of_change f) (of_change g) v s = (get_changed-put_changed f g v s).0
read-write k is resuming resuming v s =
    let (n, small, e) = is.resuming_bit in (get_resuming-set_resuming k n n v s small e small).0
read-write k is (of_status f) (of_change g) v s =
    rw (get_lem f (put_changed g v s), get_lem f s, put_changed_lem g v s) refl
read-write k is (of_status f) resuming v s = rw (get_lem f (set_resuming k v s), get_lem f s) refl
read-write k is (of_change f) (of_status g) v s =
    rw (get_changed_lem f (put g v s), get_changed_lem f s, put_lem g v s) refl
read-write k is (of_change f) resuming v s =
    rw (get_changed_lem f (set_resuming k v s), get_changed_lem f s) refl
read-write k is resuming (of_status g) v s = rw (put_lem g v s) refl
read-write k is resuming (of_change g) v s = rw (put_changed_lem g v s) refl
