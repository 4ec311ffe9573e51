-- ===== src/Lib.antt =====
-- Verification of libfreenect, the userspace driver of the Kinect (libfreenect/src): its camera,
-- its audio and its motor, the upload of firmware and the layer over libusb; and of its
-- synchronous interface (libfreenect/wrappers/c_sync).
--
-- The program. A device has a depth and a video stream. Isochronous USB packets arrive for each;
-- `stream_process` checks them and puts a frame together in a raw buffer, which is unpacked or
-- converted into the buffer that a user's callback gets. The camera is controlled by commands
-- over USB control transfers, which read and write registers and fetch a calibration; a table of
-- modes says which resolutions and formats a stream may have. The synchronous interface sets such
-- a callback and hands each frame over to a client's thread through a ring of three buffers.
-- A Kinect is a camera, a motor and an audio device behind one hub: the USB layer finds and opens
-- those that a context asks for, loads the firmware of an audio device that has none, and keeps
-- the transfers of each stream going until it is stopped. Depth frames may be registered: each
-- pixel is moved to where the video camera sees it, and the nearest depth stays.
--
-- The modules.
-- - Base: names from the libraries, Boolean tests, C arrays as lists, machine words, signed
--   integers, and the laws by which `|` and `&` of separate fields are sums and remainders.
-- - Memory: blocks of bytes, `malloc`, `free`, `memcpy`; a fault is `none`.
-- - Stream (libfreenect/src/cameras.c, packet_stream of libfreenect/src/freenect_internal.h).
--   Stream.Packet is the state and the packet header; Stream.Process is `stream_process`, one
--   function for each phase of its text, with the copy or the chunk callback; Stream.Setup is
--   `stream_init`, `stream_freebufs`, `stream_setbuf`. Their children prove: Safety (memory),
--   Accounting (counters), Assembly (frames), Layout and Buffers and Lifecycle (buffers).
-- - Unpack (cameras.c and registration.c of libfreenect/src): `convert_packed_to_16bit`,
--   `convert_packed_to_8bit`, `convert_packed11_to_16bit`, `unpack_8_pixels`. Unpack.BitString is
--   the independent description: a packed array is the string of its elements' bits.
-- - Command (`send_cmd` of libfreenect/src/flags.c), over the record Bus for the USB transfers and
--   the trace of what was sent; Flags (the registers and flags of the same file), which
--   Flags.Registers sets against an abstract file of registers.
-- - Modes (libfreenect/src/cameras.c): the tables, `freenect_find_*_mode`, `freenect_get_*_mode`,
--   `freenect_set_*_mode`; Camera: `freenect_camera_init` and the calibration it fetches.
-- - Streaming (libfreenect/src/cameras.c): `freenect_start_depth`, `freenect_start_video`,
--   `freenect_stop_depth`, `freenect_stop_video` and `freenect_camera_teardown`, which set up a
--   stream of Stream.Setup and write the registers of Flags. The results of `fnusb_start_iso` and
--   `fnusb_stop_iso` are arguments.
-- - Sync (libfreenect/wrappers/c_sync/libfreenect_sync.c): `alloc_buffer_ring_video`,
--   `alloc_buffer_ring_depth`, `producer_cb_inner`, `sync_get`, `free_buffer_ring`; Sync.Handover has the two threads as steps of a relation, with
--   `stream_setbuf` of Stream.Setup as the callback's way to change the buffer.
-- - Context (libfreenect/src/core.c): `freenect_open_device`, `freenect_close_device` and
--   `freenect_shutdown` on the linked list of open devices, which Context.Chain sets against a
--   list of addresses.
-- - Audio (libfreenect/src/audio.c): the start and stop of audio, and the callbacks for outgoing
--   and incoming packets; their order and storage are in Audio.Outgoing, Audio.Storage and
--   Audio.Incoming, what is asked of the client in Audio.Client, and the
--   memory in Audio.Ownership and Audio.Lifecycle.
-- - Usb (libfreenect/src/usb_libusb10.c). Usb.Isoc is an isochronous stream: `iso_callback`,
--   `fnusb_start_iso`, `fnusb_stop_iso`, with what libusb reports as events; Reach has all orders
--   of events and Stop the wait at the end. Usb.Siblings is the search for the devices of a hub,
--   and Usb.Subdevices is `fnusb_open_subdevices` and its parts: each call of libusb takes its
--   result from a sequence, and opened handles are counted.
-- - Loader (libfreenect/src/loader.c): `upload_firmware_from_memory` and its replies, over the
--   record BulkPipe for bulk transfers. Loader.Bootloader is the independent description of a device
--   that reads the commands and collects pages.
-- - Tilt (libfreenect/src/tilt.c): the motor, the light and the accelerometer, by the motor's own
--   control transfers or by the commands of the audio device.
-- - Bayer (libfreenect/src/cameras.c): `convert_bayer_to_rgb`, with the registers of neighbours
--   that slide along a line; Bayer.Reference says what each pixel is by positions alone.
-- - Uyvy (libfreenect/src/cameras.c): `convert_uyvy_to_rgb`, which Uyvy.Pixels describes by
--   positions.
-- - Registration (libfreenect/src/registration.c): `freenect_apply_registration`,
--   `freenect_apply_depth_to_mm` and the walks over frames; the tables are given.
-- Modules called Tests hold runs and examples.
--
-- Bounds. A word of w bits wraps by `% 2 ^ w`. An `int` that is never negative is a natural number
-- without a bound: the counters of a stream, sizes and lengths. The poll of `send_cmd` runs on
-- fuel; it is enough if the device stops answering with an empty or a full reply before it is
-- spent, and then every command is shown to return. The walks along the list of devices run on
-- fuel; more than the number of open devices is enough. The upload of an image runs on fuel; more
-- than its size is enough, since each page takes at least a byte. All other loops run over a list
-- or a count, such as the ten tries of a device to appear again after its firmware was loaded.
--
-- Assumptions. `malloc` succeeds where the program does not test it. The host is little-endian. Log
-- output, the pauses of `usleep` and the locks themselves are left out; each step of Sync.Handover
-- is what happens under one holding of the ring's lock. `fnusb_control`, that is, libusb's
-- control transfer, is the parameter Bus; what a user's chunk callback or audio-in callback
-- does to memory is a parameter too; a callback does not call the library.
-- What an uninitialised variable holds is an argument.
--
-- Not modelled: the choice of a conversion for each frame; the search for
-- firmware files and the upload of calibration data to the audio device; the list of attached
-- devices with their serial numbers; the making and copying of registration tables and
-- `freenect_map_rgb_to_depth`; the rest of the synchronous interface; what is computed in floating
-- point, such as the exposure, the tables of registration, and fractions of a degree of tilt;
-- libfreenect/fakenect, libfreenect/examples, the driver for OpenNI, the emulation of libusb on
-- Windows, and the wrappers for other languages.
pub mod Base
pub mod Memory
pub mod Stream
pub mod Unpack
pub mod Sync
pub mod Command
pub mod Flags
pub mod Modes
pub mod Camera
pub mod Usb
pub mod Uyvy
pub mod Loader
pub mod Tilt
pub mod Bayer
pub mod Registration
pub mod Audio
pub mod Context
pub mod Streaming
