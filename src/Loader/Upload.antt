-- ===== src/Loader/Upload.antt =====
-- What the upload of an image leaves in a bootloader that takes every transfer.
use soqv.Base.{
  ℕ, ◌+◌, ◌-◌, ◌^◌, ◌≤◌, ◌<◌, min, ◌≡◌, refl, ap, sym, ◌∙◌, inl, inr, Bool, true, false, Option,
  none, some, List, [], arith, ltb, leb, ◌==◌, if◌then◌else◌, length, take, u32, Bool-cases,
}
use soqv.Base.Int.{ℤ, pos, negsuc}
use soqv.Loader.{
  BulkPipe, LoaderDevice, after_bulk, bootloader_command, sizeof_header, base_addr, image_size,
  entry_addr, sent_all, get_reply, page_done, send_pages, launch, pages_sent,
  upload_firmware_from_memory,
}
use soqv.Loader.Bootloader.{Boot, boot_step, boot_run, At, At-launched, launch_command-At}
use soqv.Loader.Pages.{IsTaking, state, accepts_lem, sent_size, send_pages-Sent}

module _ (usb : BulkPipe) (taking : IsTaking usb) (b₀ : Boot) where
  abbrev pub is_complete : List ℕ → Bool
  is_complete image = leb (image_size image) (length image)

  -- The declared part of the image is in the bootloader, and started only if it is all there.
  pub record Uploaded (image : List ℕ) (out : Option (ℤ × LoaderDevice)) : Type 0 where
    pub final : LoaderDevice
    pub returns : out ≡ some ((if is_complete image then pos 0 else negsuc 0), final)
    pub boot :
        At
          (boot_run final.trace b₀)
          0
          (u32 (base_addr image + min (image_size image) (length image)))
          (take (min (image_size image) (length image)) image)
          (if is_complete image then some (entry_addr image) else none)

  launch-state :
      (image : List ℕ) (dev : LoaderDevice)
      → let cmd = bootloader_command dev.audio_tag 0 0x04 (entry_addr image) in
        state usb taking b₀ (page_done usb (after_bulk cmd dev))
        ≡ boot_step cmd (state usb taking b₀ dev)
  unfolding boot_run get_reply
  launch-state image dev = refl

  launched-Uploaded :
      (image : List ℕ) (dev : LoaderDevice) {n : ℕ}
      → n ≡ min (image_size image) (length image)
      → entry_addr image < 2 ^ 32
      → At (state usb taking b₀ dev) 0 (u32 (base_addr image + n)) (take n image) none
      → Uploaded image (pages_sent usb image (sent_all n dev))
  launched-Uploaded image dev {n} e in_range v =
      let q : (n == image_size image) ≡ is_complete image = ground (arith, e) in
      let cmd = bootloader_command dev.audio_tag 0 0x04 (entry_addr image) in
      let done = page_done usb (after_bulk cmd dev) in
      let at_addr = ap (λ (t : ℕ). u32 (base_addr image + t)) e in
      let at_data = ap (λ (t : ℕ). take t image) e in
      elim (Bool-cases (is_complete image)) [
        | inr short ↦ record {
          final = dev;
          returns =
              ap (λ (b : Bool). if b then some (launch usb image dev) else some (negsuc 0, dev))
                (q ∙ short)
              ∙ ap (λ (b : Bool). some ((if b then pos 0 else negsuc 0), dev)) (sym short);
          boot =
              At-launched (state usb taking b₀ dev) at_addr at_data
                (ap (λ (b : Bool). if b then some (entry_addr image) else none) (sym short)) v;
        }
        | inl all ↦ record {
          final = done;
          returns =
              ap (λ (b : Bool). if b then some (launch usb image dev) else some (negsuc 0, dev))
                (q ∙ all)
              ∙ ap
                  (λ (b : Bool). some (if b then (pos 0, done) else (negsuc 0, after_bulk cmd dev)))
                  (accepts_lem usb taking b₀ cmd dev)
              ∙ ap (λ (b : Bool). some ((if b then pos 0 else negsuc 0), done)) (sym all);
          boot =
              At-launched (state usb taking b₀ done) at_addr at_data
                (ap (λ (b : Bool). if b then some (entry_addr image) else none) (sym all))
                (rw (launch-state image dev) (
                  launch_command-At dev.audio_tag (entry_addr image) (state usb taking b₀ dev)
                    in_range v));
        }
      ]

  -- The upload of an image with a header, of less than 2 ^ 31 bytes, to a device that takes every
  -- transfer returns, whatever the replies are, and the fuel is more than the image's size: a bootloader
  -- that waits at the base address has then read the declared size of the image, or all of it if it is
  -- shorter, in pages at consecutive addresses; if all was there it is started at the entry address and
  -- 0 is returned, and else it is not started and the result is -1.
  pub upload_firmware-Uploaded :
      (fuel errno : ℕ) (image : List ℕ) (dev : LoaderDevice)
      → sizeof_header ≤ length image
      → length image < 2 ^ 31
      → length image < fuel
      → base_addr image < 2 ^ 32
      → entry_addr image < 2 ^ 32
      → At (boot_run dev.trace b₀) 0 (base_addr image) [] none
      → Uploaded image (upload_firmware_from_memory usb fuel errno image dev)
  unfolding upload_firmware_from_memory
  upload_firmware-Uploaded fuel errno image dev header small enough base entry v =
      let l : ltb (length image) (2 ^ 31) ≡ true = ground (arith, small) in
      let h : ltb (length image) sizeof_header ≡ false = ground (arith, header) in
      let p =
        send_pages-Sent usb taking b₀ fuel image (image_size image) 0 (base_addr image) dev enough
          (omega arith) base v in
      let size = min (image_size image) (length image) in
      let n : sent_size usb taking b₀ image (image_size image - 0) ≡ size = omega arith in
      let ends : send_pages usb fuel image (image_size image) 0 (base_addr image) dev
          ≡ sent_all size p.dev =
        p.ends ∙ ap (λ (t : ℕ). sent_all t p.dev) (omega (arith, n)) in
      let boot : At (state usb taking b₀ p.dev) 0 (u32 (base_addr image + size)) (take size image)
          none =
        At-launched (state usb taking b₀ p.dev) (ap (λ (t : ℕ). u32 (base_addr image + t)) n)
          (ap (λ (t : ℕ). take t image) n) refl p.boot in
      rw (l, h, ends) (launched-Uploaded image p.dev refl entry boot)
