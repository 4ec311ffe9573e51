-- ===== src/Loader/Tests.antt =====
-- The upload of an image of 600 bytes.
use soqv.Base.{ℕ, ◌≡◌, refl, false, none, some, List, [], ◌∷◌, ◌++◌, arith, length, replicate}
use mathlib.Core.Option
use soqv.Base.Int.{ℤ, pos, negsuc}
use soqv.Command.{le32}
use soqv.Loader.{
  BulkPipe, LoaderDevice, get_reply, check_version_string, send_chunks, send_pages,
  upload_firmware_from_memory,
}
use soqv.Loader.Bootloader.{Boot, At}
use soqv.Loader.Upload.{Uploaded, upload_firmware-Uploaded}

-- A device that takes all transfers and answers with nothing.
abbrev taking_all : BulkPipe
taking_all = record {
  output = λ events bytes. (pos 0, length bytes);
  input = λ events. (pos 0, []);
}

abbrev header : ℕ → List ℕ
header size =
    le32 0xca77f00d
    ++ (0 ∷ 0 ∷ 1 ∷ 0 ∷ 2 ∷ 0 ∷ 3 ∷ 0 ∷ (le32 0x80000 ++ (le32 size ++ le32 0x80030)))

abbrev image : List ℕ
image = header 600 ++ replicate 576 7

abbrev fresh : LoaderDevice
fresh = record { trace = []; audio_tag = 5 }

abbrev waiting : Boot
waiting = record {
  expecting = 0;
  next_addr = 0x80000;
  received = [];
  launched = none;
  broken = false;
}

too_small : upload_firmware_from_memory taking_all 9 0 (1 ∷ 2 ∷ []) fresh ≡ some (pos 0, fresh)
unfolding upload_firmware_from_memory
too_small = refl

-- A reply of the wrong length is no error.
short_reply : (get_reply taking_all fresh).0 ≡ pos 0
unfolding get_reply
short_reply = refl

-- The header declares more than there is.
truncated :
    Option.map
      (λ (r : ℤ × LoaderDevice). r.0)
      (upload_firmware_from_memory taking_all 9 0 (header 25) fresh)
    ≡ some (negsuc 0)
unfolding upload_firmware_from_memory send_pages send_chunks get_reply
truncated = refl

upload_firmware-Uploaded_example :
    Uploaded taking_all
      (λ events bytes. refl)
      waiting
      image
      (upload_firmware_from_memory taking_all 601 0 image fresh)
unfolding soqv.Loader.Bootloader.boot_run
upload_firmware-Uploaded_example =
    upload_firmware-Uploaded taking_all (λ events bytes. refl) waiting 601 0 image fresh
      (omega arith) (omega arith) (omega arith) (omega arith) (omega arith)
      (record { expects = refl; at = refl; has = refl; runs = refl; whole = refl })
