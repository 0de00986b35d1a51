-- ===== src/Lib.antt =====
-- libusb_vhci: a C and C++ library for virtual USB host controllers. A kernel module (usb-vhci-hcd)
-- plays the controller towards the USB stack; the library talks to it through a device file and hands
-- the client work: URBs to process, URBs to cancel, and changes of the ports' states.
--
-- The C interface (src/libusb_vhci.c, src/libusb_vhci.h) is a set of functions around `ioctl`.
--   Status.antt        the status codes and usb_vhci_to_errno, usb_vhci_from_errno and their variants for
--                      packets, as tables that the `switch` of Prelude/Switch.antt reads in order.
--   PortStat.antt      class port_stat: its bits and their getters and setters; PortStat/Triggers.antt has
--                      usb_vhci_port_stat_triggers and the triggers of class port_stat_work.
--   Urb.antt           struct usb_vhci_urb, struct usb_vhci_iso_packet and the macros on them.
--   Device/Fetch.antt  usb_vhci_fetch_work, usb_vhci_fetch_work_timeout and usb_vhci_fetch_data.
--   Device/Giveback.antt  usb_vhci_giveback: the request, and the result once the kernel has answered.
--   Device/Open.antt   usb_vhci_open and usb_vhci_close, with the system calls that they make.
--   Device/Port.antt   usb_vhci_port_connect to usb_vhci_port_reset_done.
-- The C++ classes stand on it.
--   Urb/Object.antt    class usb::urb (src/urb.cpp): constructors, checks, set_iso_results;
--                      Urb/Object/Build.antt has the constructor from single values, and
--                      Urb/Object/Heap.antt the copy constructor, operator= and the destructor with the
--                      arrays behind the pointers; Urb/Object/Members.antt has the methods of the header,
--                      and Urb/Object/PacketAnswers.antt a client that answers packets one by one.
--   Work.antt          class work and its subclasses (src/work.cpp), and the store of allocated works;
--                      Work/Copying.antt has the copying of a process_urb_work.
--   Hcd.antt           class hcd (src/hcd.cpp): `inbox`, `processing`, the callbacks and every method on
--                      them. The virtual methods that it calls are a record, `Virtual`, with the laws
--                      `IsVirtual` (Hcd/Laws.antt), which Hcd/Finish.antt and Hcd/Cancel.antt take as
--                      hypotheses; LocalHcd/Laws.antt is about those of the derived class.
--                      Hcd/Thread.antt has init_bg_thread, join_bg_thread and bg_thread_start as steps of
--                      several threads; Hcd/Fifo.antt is the queue that the class promises to implement.
--   LocalHcd.antt      class local_hcd (src/local_hcd.cpp): the ports, the virtual methods and the port
--                      methods; LocalHcd/Background.antt has the passes of bg_work for a port event and
--                      for a URB, LocalHcd/Background/Rounds.antt the passes for one URB with the
--                      loops that wait for memory, and LocalHcd/Background/Dispatch.antt bg_work itself.
--                      LocalHcd/Lifetime.antt has the constructor and the destructor, and
--                      LocalHcd/Ports.antt the runs of calls and passes between them, with
--                      LocalHcd/Account.antt counting what becomes of a URB in them.
--   Example.antt       examples/virtual_device2.c, a client of the C interface: the device's answers and the
--                      handling of one port event or URB; Example/Main.antt has the loop of main.
--   ExampleCpp.antt    examples/virtual_device.cpp, a client of the classes: the device's answers, the
--                      handling of one work, in ExampleCpp/System.antt the client thread and the
--                      background thread with the condition variable between them, in
--                      ExampleCpp/Callbacks.antt what the registered callbacks do to its variables,
--                      and in ExampleCpp/Start.antt the start of main.
-- Prelude.antt passes on the shared names: numbers, integers, lists, bits and `switch`. Outcome.antt
-- has what a method does: it returns, it throws and leaves a state, or its behaviour is undefined.
--
-- Correspondence. A method is a function of the object's state. Every public method of hcd holds
-- `_lock` while it works, so it is one step; what other threads do between the passes of a retry is a
-- function of the state in each round. Works are named by addresses in a store, so that a dangling
-- pointer, a leak and a double `delete` can be told: `Owns` (Hcd/Owned.antt) says that the containers
-- point to every live work exactly once. Hcd/Session.antt puts the methods together: its `Step` is one
-- call by any thread, with or without memory for the containers, but for a next_work that throws;
-- `Reach` has the states that calls lead to. Hcd/Drain.antt repeats next_work. finish_work deletes
-- the work after it has released `_lock`; nothing else points to it then, and the deletion counts as
-- part of the step.
-- `Behaves` and `Runs` (Hcd/Fifo.antt) are the calls and the runs of the abstract queue.
-- Unsigned fields are natural numbers, signed ones integers. A pointer to an array is the array or
-- `none`; reading past its end, or through NULL, is undefined behaviour. Memory is an argument: what
-- `new` and `malloc` answer, and whether a container grows.
--
-- Parameters. The numbers of <errno.h> (Errno.antt) and of the kernel's header usb-vhci.h
-- (Kernel.antt) are records; `IsErrno` and `IsHeader` say that what must differ differs, and `linux` and
-- `sample` are instances. The kernel's answer to an `ioctl` is an argument, `Reply`.
--
-- Bounds. Loops over lists and packets are structural. The retries of the background thread are a
-- list of rounds, one for each pass after the first, and the failures of an allocation that is
-- repeated are a list too. The loop of virtual_device2.c runs for any list of turns. The loop of
-- usb_vhci_close runs on fuel, and any amount above the number of interrupted calls is enough.
-- PortStat/Accessors.antt decides the bits of 16 and 8 bit words by tables. The loops of the threads
-- are step relations without a bound.
--
-- Not modelled: what the examples print, and the initialisation of mutexes. The mutexes are
-- taken as the reason why a call is one step; accesses to `thread_shutdown` are taken in the order
-- of the steps. Methods that return one member of a URB or of a port's state are the record's fields.
pub mod Prelude
pub mod Errno
pub mod Status
pub mod Kernel
pub mod PortStat
pub mod Outcome
pub mod Urb
pub mod Work
pub mod Hcd
pub mod Device
pub mod LocalHcd
pub mod Example
pub mod ExampleCpp
pub mod Tests
