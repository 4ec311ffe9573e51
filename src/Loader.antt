-- ===== src/Loader.antt =====
-- The upload of firmware to the audio device, in src/loader.c: the image in pages of 0x4000 bytes and
-- chunks of 512, and the replies of the bootloader.
pub mod Bootloader
pub mod Pages
pub mod Upload
mod Tests
use soqv.Base.{
  ℕ, zero, suc, ◌+◌, ◌-◌, ◌*◌, ◌^◌, Bool, true, false, not, ◌&&◌, Option, none, some, List, [], ◌∷◌,
  ◌++◌, ltb, ◌==◌, if◌then◌else◌, length, take, drop, u32,
}
use soqv.Base.Int.{ℤ, pos, negsuc}
use soqv.Command.{Event, sent, polled, le32, le32_at}

-- `fnusb_bulk` in both directions: its result and how many bytes were transferred, or the bytes.
pub record BulkPipe : Type 0 where
  pub output : List Event → List ℕ → ℤ × ℕ
  pub input : List Event → ℤ × List ℕ

-- The fields of `freenect_device` that the upload uses, and the transfers so far.
pub record LoaderDevice : Type 0 where
  pub trace : List Event
  pub audio_tag : ℕ

abbrev pub is_success_code : ℤ → Bool
is_success_code (pos n) = n == 0
is_success_code (negsuc e) = false

-- Not `res != 0 || transferred != length bytes`.
abbrev pub transferred_all : List ℕ → ℤ × ℕ → Bool
transferred_all bytes (res, transferred) = is_success_code res && transferred == length bytes

abbrev pub after_bulk : List ℕ → LoaderDevice → LoaderDevice
after_bulk bytes dev = record dev { trace = sent bytes ∷ dev.trace }

abbrev pub next_tag : LoaderDevice → LoaderDevice
next_tag dev = record dev { audio_tag = u32 (dev.audio_tag + 1) }

-- A `bootloader_command` of 24 bytes.
abbrev pub bootloader_command : ℕ → ℕ → ℕ → ℕ → List ℕ
bootloader_command tag bytes cmd addr =
    le32 0x06022009 ++ (le32 tag ++ (le32 bytes ++ (le32 cmd ++ (le32 addr ++ le32 0))))

-- The fields of a `firmware_header` that are used.
abbrev pub sizeof_header : ℕ
sizeof_header = 24

abbrev pub base_addr : List ℕ → ℕ
base_addr image = le32_at image 12

abbrev pub image_size : List ℕ → ℕ
image_size image = le32_at image 16

abbrev pub entry_addr : List ℕ → ℕ
entry_addr image = le32_at image 20

-- How a loop of transfers ends: with a count of bytes sent, which the loop over pages keeps, with -1, or
-- not with this fuel.
pub data Sending : Type 0 where
  sent_all : ℕ → LoaderDevice → Sending
  send_failed : LoaderDevice → Sending
  out_of_fuel : Sending

-- `get_reply` of a status code of 12 bytes. A reply of another length is not reported.
abbrev pub check_reply : ℕ → ℤ × List ℕ → ℤ
check_reply audio_tag (res, bytes) =
    if not (is_success_code res && length bytes == 12)
    then res
    else if not (le32_at bytes 0 == 0x0a6fe000)
    then negsuc 0
    else if not (le32_at bytes 4 == audio_tag)
    then negsuc 0
    else res

module _ (usb : BulkPipe) where
  unfoldable pub get_reply : LoaderDevice → ℤ × LoaderDevice
  get_reply dev =
      (check_reply dev.audio_tag (usb.input dev.trace), record dev { trace = polled ∷ dev.trace })

  abbrev pub accepts : List ℕ → LoaderDevice → Bool
  accepts bytes dev = transferred_all bytes (usb.output dev.trace bytes)

  -- `check_version_string`: a command, its data, and its status.
  abbrev pub version_read : ℤ → LoaderDevice → ℤ × LoaderDevice
  version_read res dev =
      let (status, dev') = get_reply dev in
      if is_success_code res then (status, next_tag dev') else (res, dev)

  unfoldable pub check_version_string : LoaderDevice → ℤ × LoaderDevice
  check_version_string dev =
      let cmd = bootloader_command dev.audio_tag 0x60 0 0x15 in
      let dev' = after_bulk cmd dev in
      if accepts cmd dev
      then version_read (usb.input dev'.trace).0 (record dev' { trace = polled ∷ dev'.trace })
      else (negsuc 0, dev')

  -- The loop over a page.
  unfoldable pub send_chunks : ℕ → List ℕ → LoaderDevice → Sending
  send_chunks fuel [] dev = sent_all 0 dev
  send_chunks zero (byte ∷ page) dev = out_of_fuel
  send_chunks (suc fuel) (byte ∷ page) dev = elim (accepts (take 512 (byte ∷ page)) dev) [
    | true ↦ send_chunks fuel (drop 512 (byte ∷ page)) (after_bulk (take 512 (byte ∷ page)) dev)
    | false ↦ send_failed (after_bulk (take 512 (byte ∷ page)) dev)
  ]

  -- The reply to a page: nothing looks at its result.
  abbrev pub page_done : LoaderDevice → LoaderDevice
  page_done dev = next_tag (get_reply dev).1

  -- `read`, with the declared size and what is left of the image.
  abbrev pub page_size : ℕ → ℕ → ℕ
  page_size undeclared bytes_left =
      let read = if ltb undeclared 0x4000 then undeclared else 0x4000 in
      if ltb bytes_left read then bytes_left else read

  abbrev pub and_continue : Sending → (LoaderDevice → Sending) → Sending
  and_continue (sent_all n dev) k = k dev
  and_continue (send_failed dev) k = send_failed dev
  and_continue out_of_fuel k = out_of_fuel

  abbrev pub send_page : List ℕ → ℕ → LoaderDevice → Sending
  send_page page addr dev =
      let cmd = bootloader_command dev.audio_tag (length page) 0x03 addr in
      if accepts cmd dev
      then send_chunks (length page) page (after_bulk cmd dev)
      else send_failed (after_bulk cmd dev)

  -- The loop over the pages of what is left of the image.
  unfoldable pub send_pages : ℕ → List ℕ → ℕ → ℕ → ℕ → LoaderDevice → Sending
  send_pages zero left size total addr dev = out_of_fuel
  send_pages (suc fuel) left size total addr dev =
      let read = page_size (size - total) (length left) in
      elim (read == 0) [
        | true ↦ sent_all total dev
        | false ↦ and_continue (send_page (take read left) addr dev) (λ dev'.
            send_pages fuel (drop read left) size (total + read) (u32 (addr + read))
              (page_done dev'))
      ]

  -- The command that starts the image.
  abbrev pub launch : List ℕ → LoaderDevice → ℤ × LoaderDevice
  launch image dev =
      let cmd = bootloader_command dev.audio_tag 0 0x04 (entry_addr image) in
      if accepts cmd dev
      then (pos 0, page_done (after_bulk cmd dev))
      else (negsuc 0, after_bulk cmd dev)

  abbrev pub pages_sent : List ℕ → Sending → Option (ℤ × LoaderDevice)
  pages_sent image (send_failed dev) = some (negsuc 0, dev)
  pages_sent image out_of_fuel = none
  pages_sent image (sent_all total dev) =
      if total == image_size image then some (launch image dev) else some (negsuc 0, dev)

  abbrev pub negated : ℕ → ℤ
  negated zero = pos 0
  negated (suc e) = negsuc e

  -- The size is an `unsigned int`; above the range of `int` nothing is left to send. The fuel bounds the
  -- number of pages, and `none` is one that does not suffice.
  unfoldable pub upload_firmware_from_memory :
      ℕ → ℕ → List ℕ → LoaderDevice → Option (ℤ × LoaderDevice)
  upload_firmware_from_memory fuel errno image dev =
      let left = if ltb (length image) (2 ^ 31) then image else [] in
      if ltb (length image) sizeof_header
      then some (negated errno, dev)
      else pages_sent image (send_pages fuel left (image_size image) 0 (base_addr image) dev)
