-- ===== src/Loader/Pages.antt =====
-- What the loops over pages and chunks leave in a bootloader that takes every transfer.
use soqv.Base.{
  ℕ, zero, suc, ◌+◌, ◌-◌, ◌^◌, ◌≤◌, ◌<◌, min, ◌≡◌, refl, ap, sym, ◌∙◌, inl, inr, Bool, true, false,
  Option, none, List, [], ◌∷◌, ◌++◌, arith, ◌==◌, if◌then◌else◌, length, take, drop, length-take,
  length-drop, take-append-drop, u32, Bool-cases,
}
use mathlib.Core.List.{append-nil, append_assoc}
use soqv.Base.Int.{pos}
use soqv.Command.{Event}
use soqv.Loader.{
  BulkPipe, LoaderDevice, transferred_all, after_bulk, bootloader_command, Sending, sent_all,
  get_reply, accepts, send_chunks, page_done, page_size, and_continue, send_page, send_pages,
}
use soqv.Loader.Bootloader.{Boot, boot_run, At, page_command-At, At-launched, chunk-At}

-- Every transfer to the device is taken as a whole.
abbrev pub IsTaking : BulkPipe → Type 0
IsTaking usb =
    (events : List Event) (bytes : List ℕ) → usb.output events bytes ≡ (pos 0, length bytes)

take_nil : (j : ℕ) → ◌≡◌ {A = List ℕ} (take j []) []
take_nil zero = refl
take_nil (suc j) = refl

take_split : (k n : ℕ) (xs : List ℕ) → take (k + n) xs ≡ take k xs ++ take n (drop k xs)
take_split zero n xs = let e : 0 + n ≡ n = omega arith in ap (λ (t : ℕ). take t xs) e
take_split (suc k) n [] = take_nil (suc k + n) ∙ ap (λ (t : List ℕ). [] ++ t) (sym (take_nil n))
take_split (suc k) n (x ∷ xs) =
    let e : suc k + n ≡ suc (k + n) = omega arith in
    ap (λ (t : ℕ). take t (x ∷ xs)) e ∙ ap (λ (t : List ℕ). x ∷ t) (take_split k n xs)

module _ (usb : BulkPipe) (taking : IsTaking usb) (b₀ : Boot) where
  pub accepts_lem : (bytes : List ℕ) (dev : LoaderDevice) → accepts usb bytes dev ≡ true
  accepts_lem bytes dev = ap (transferred_all bytes) (taking dev.trace bytes) ∙ same (length bytes)
    where
      same : (n : ℕ) → (n == n) ≡ true
      same n = ground arith

  abbrev pub state : LoaderDevice → Boot
  state dev = boot_run dev.trace b₀

  pub page_done-state : (dev : LoaderDevice) → state (page_done usb dev) ≡ state dev
  unfolding get_reply boot_run
  page_done-state dev = refl

  record ChunksSent (s : Sending) (addr : ℕ) (recv : List ℕ) (l : Option ℕ) : Type 0 where
    dev : LoaderDevice
    ends : s ≡ sent_all 0 dev
    boot : At (state dev) 0 addr recv l

  send_chunks-Sent :
      (fuel : ℕ) (page : List ℕ) (dev : LoaderDevice) {addr : ℕ} {recv : List ℕ} {l : Option ℕ}
      → length page ≤ fuel
      → At (state dev) (length page) addr recv l
      → ChunksSent (send_chunks usb fuel page dev) addr (recv ++ page) l
  unfolding send_chunks boot_run
  send_chunks-Sent fuel [] dev {addr} {recv} {l} enough v = record {
    dev = dev;
    ends = done fuel;
    boot = rw append-nil v;
  }
    where
      done : (n : ℕ) → send_chunks usb n [] dev ≡ sent_all 0 dev
      done zero = refl
      done (suc n) = refl
  send_chunks-Sent zero (byte ∷ page) dev enough v = absurd (omega arith)
  send_chunks-Sent (suc fuel) (byte ∷ page) dev {addr} {recv} {l} enough v =
      let chunk = take 511 page in
      let rest = drop 511 page in
      let n : length (byte ∷ page) ≡ length (byte ∷ chunk) + length rest =
        omega (arith, length-take 511 page, length-drop 511 page) in
      let b : At (state dev) (length (byte ∷ chunk) + length rest) addr recv l = rw (← n) v in
      let r =
        send_chunks-Sent fuel rest (after_bulk (byte ∷ chunk) dev)
          (omega (arith, length-drop 511 page)) (chunk-At byte chunk (state dev) (length rest) b) in
      record {
        dev = r.dev;
        ends = rw (accepts_lem (byte ∷ chunk) dev, send_chunks) r.ends;
        boot = rw (whole page) at r.boot;
      }
    where
      whole : (xs : List ℕ) → (recv ++ (byte ∷ take 511 xs)) ++ drop 511 xs ≡ recv ++ (byte ∷ xs)
      whole xs =
          append_assoc recv (byte ∷ take 511 xs) (drop 511 xs)
          ∙ ap (λ (t : List ℕ). recv ++ (byte ∷ t)) (take-append-drop 511 xs)

  send_page-Sent :
      (page : List ℕ) (dev : LoaderDevice) {addr : ℕ} {recv : List ℕ} {l : Option ℕ}
      → length page < 2 ^ 32
      → addr < 2 ^ 32
      → At (state dev) 0 addr recv l
      → ChunksSent (send_page usb page addr dev) (u32 (addr + length page)) (recv ++ page) l
  unfolding boot_run
  send_page-Sent page dev {addr} small in_range v =
      let cmd = bootloader_command dev.audio_tag (length page) 3 addr in
      rw (accepts_lem cmd dev) (
        send_chunks-Sent (length page) page (after_bulk cmd dev) (omega arith)
          (page_command-At dev.audio_tag (length page) addr (state dev) small in_range v))

  abbrev pub sent_size : List ℕ → ℕ → ℕ
  sent_size left undeclared = min undeclared (length left)

  pub record PagesSent (s : Sending) (total addr : ℕ) (recv : List ℕ) : Type 0 where
    pub dev : LoaderDevice
    pub ends : s ≡ sent_all total dev
    pub boot : At (state dev) 0 addr recv none

  page_size_lem : (u n : ℕ) → page_size usb u n ≡ min 0x4000 (min u n)
  page_size_lem u n = ground arith

  -- One round of the loop over pages.
  abbrev after_page : ℕ → ℕ → List ℕ → ℕ → ℕ → ℕ → LoaderDevice → Sending
  after_page fuel read left size total addr dev =
      and_continue usb (send_page usb (take read left) addr dev) (λ dev'.
        send_pages usb fuel (drop read left) size (total + read) (u32 (addr + read))
          (page_done usb dev'))

  send_pages-step :
      (fuel : ℕ) (left : List ℕ) (size total addr : ℕ) (dev : LoaderDevice) (b : Bool)
      → (page_size usb (size - total) (length left) == 0) ≡ b
      → send_pages usb (suc fuel) left size total addr dev ≡ (
          if b
          then sent_all total dev
          else after_page fuel
              (page_size usb (size - total) (length left))
              left
              size
              total
              addr
              dev)
  unfolding send_pages
  send_pages-step fuel left size total addr dev true e =
      ap
        (λ (t : Bool). elim t [
          | true ↦ sent_all total dev
          | false ↦
              after_page fuel (page_size usb (size - total) (length left)) left size total addr dev
        ])
        e
  send_pages-step fuel left size total addr dev false e =
      ap
        (λ (t : Bool). elim t [
          | true ↦ sent_all total dev
          | false ↦
              after_page fuel (page_size usb (size - total) (length left)) left size total addr dev
        ])
        e

  pub send_pages-Sent :
      (fuel : ℕ) (left : List ℕ) (size total addr : ℕ) (dev : LoaderDevice) {recv : List ℕ}
      → length left < fuel
      → total ≤ size
      → addr < 2 ^ 32
      → At (state dev) 0 addr recv none
      → PagesSent
          (send_pages usb fuel left size total addr dev)
          (total + sent_size left (size - total))
          (u32 (addr + sent_size left (size - total)))
          (recv ++ take (sent_size left (size - total)) left)
  send_pages-Sent zero left size total addr dev enough h in_range v = absurd (omega arith)
  send_pages-Sent (suc fuel) left size total addr dev {recv} enough h in_range v =
      let n = sent_size left (size - total) in
      let read = page_size usb (size - total) (length left) in
      let r : read ≡ min 0x4000 n = page_size_lem (size - total) (length left) in
      elim (Bool-cases (read == 0)) [
        | inl nothing ↦
            let z : n ≡ 0 = ground (arith, r) in
            record {
              dev = dev;
              ends =
                  send_pages-step fuel left size total addr dev true nothing
                  ∙ ap (λ (t : ℕ). sent_all t dev) (omega (arith, z));
              boot =
                  At-launched (state dev) (omega (arith, z))
                    (sym (append-nil recv) ∙ ap (λ (t : ℕ). recv ++ take t left) (sym z)) refl v;
            }
        | inr page ↦
            let some_bytes : 0 < read = ground arith in
            let len : length (take read left) ≡ read = omega (arith, r, length-take read left) in
            let c = send_page-Sent (take read left) dev (omega (arith, r, len)) in_range v in
            let a : u32 (addr + length (take read left)) ≡ u32 (addr + read) =
              ap (λ (t : ℕ). u32 (addr + t)) len in
            let rest = drop read left in
            let m : length rest ≡ length left - read = length-drop read left in
            let ih =
              send_pages-Sent fuel rest size (total + read) (u32 (addr + read))
                (page_done usb c.dev) (omega (arith, m, r)) (omega (arith, r)) (omega arith)
                (at_done c.dev (At-launched (state c.dev) a refl refl c.boot)) in
            let split : n ≡ read + sent_size rest (size - (total + read)) = omega (arith, r, m) in
            record {
              dev = ih.dev;
              ends =
                  chain (send_pages-step fuel left size total addr dev false page)
                    (continue c.dev c.ends) ih.ends
                    (ap (λ (t : ℕ). sent_all t ih.dev) (omega (arith, split)));
              boot =
                  At-launched (state ih.dev) (omega (arith, split))
                    (append_assoc recv (take read left)
                        (take (sent_size rest (size - (total + read))) rest)
                      ∙ ap (λ (t : List ℕ). recv ++ t)
                          (sym (take_split read (sent_size rest (size - (total + read))) left))
                      ∙ ap (λ (t : ℕ). recv ++ take t left) (sym split))
                    refl ih.boot;
            }
      ]
    where
      chain : {a b c d e : Sending} → a ≡ b → b ≡ c → c ≡ d → d ≡ e → a ≡ e
      chain p q r t = p ∙ q ∙ r ∙ t

      at_done :
          (d : LoaderDevice) {a : ℕ} {rec : List ℕ}
          → At (state d) 0 a rec none
          → At (state (page_done usb d)) 0 a rec none
      at_done d w = rw (page_done-state d) w

      continue :
          (d : LoaderDevice)
          → send_page usb (take (page_size usb (size - total) (length left)) left) addr dev
            ≡ sent_all 0 d
          → after_page fuel (page_size usb (size - total) (length left)) left size total addr dev
            ≡ send_pages usb fuel
                (drop (page_size usb (size - total) (length left)) left)
                size
                (total + page_size usb (size - total) (length left))
                (u32 (addr + page_size usb (size - total) (length left)))
                (page_done usb d)
      continue d e =
          ap
            (λ (t : Sending). and_continue usb t (λ dev'.
              send_pages usb fuel (drop (page_size usb (size - total) (length left)) left) size
                (total + page_size usb (size - total) (length left))
                (u32 (addr + page_size usb (size - total) (length left))) (page_done usb dev')))
            e
