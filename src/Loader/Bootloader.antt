-- ===== src/Loader/Bootloader.antt =====
-- A bootloader that takes pages at consecutive addresses, as an independent reader of the transfers.
use soqv.Base.{
  ℕ, ◌+◌, ◌-◌, ◌*◌, ◌/◌, ◌%◌, ◌^◌, ◌<◌, ◌≡◌, refl, ap, ◌∙◌, Bool, true, false, ◌&&◌, Option, some,
  List, [], ◌∷◌, ◌++◌, arith, leb, ◌==◌, if◌then◌else◌, length, u32,
}
use soqv.Command.{Event, sent, polled, le32_at}
use soqv.Loader.{bootloader_command}

-- `expecting` bytes of the page are still to come; `received` is the image so far, which ends before
-- `next_addr`.
pub record Boot : Type 0 where
  pub expecting : ℕ
  pub next_addr : ℕ
  pub received : List ℕ
  pub launched : Option ℕ
  pub broken : Bool

-- A command by its byte count, its number and its address.
pub read_command : ℕ → ℕ → ℕ → Boot → Boot
read_command bytes cmd addr b =
    if cmd == 3 && addr == b.next_addr
    then record b { expecting = bytes; next_addr = u32 (b.next_addr + bytes) }
    else if cmd == 4
    then record b { launched = some addr }
    else record b { broken = true }

pub read_data : List ℕ → Boot → Boot
read_data bytes b =
    if leb (length bytes) b.expecting
    then record b { expecting = b.expecting - length bytes; received = b.received ++ bytes }
    else record b { broken = true }

pub boot_step : List ℕ → Boot → Boot
boot_step bytes b =
    if b.expecting == 0
    then read_command (le32_at bytes 8) (le32_at bytes 12) (le32_at bytes 16) b
    else read_data bytes b

-- The transfers, the last one first.
unfoldable pub boot_run : List Event → Boot → Boot
boot_run [] b = b
boot_run (sent bytes ∷ events) b = boot_step bytes (boot_run events b)
boot_run (polled ∷ events) b = boot_run events b

-- What a bootloader is at.
pub record At (b : Boot) (expecting next_addr : ℕ) (received : List ℕ) (launched : Option ℕ)
    : Type 0 where
  pub expects : b.expecting ≡ expecting
  pub at : b.next_addr ≡ next_addr
  pub has : b.received ≡ received
  pub runs : b.launched ≡ launched
  pub whole : b.broken ≡ false

-- The same state by equal numbers and lists.
pub At-launched :
    (b : Boot) {a a' : ℕ} {recv recv' : List ℕ} {l l' : Option ℕ}
    → a ≡ a'
    → recv ≡ recv'
    → l ≡ l'
    → At b 0 a recv l
    → At b 0 a' recv' l'
At-launched b p q r v = rw (← p, ← q, ← r) v

le32_back :
    (n : ℕ)
    → n < 2 ^ 32
    → n % 2 ^ 8
        + 2 ^ 8 * (n / 2 ^ 8 % 2 ^ 8)
        + 2 ^ 16 * (n / 2 ^ 16 % 2 ^ 8 + 2 ^ 8 * (n / 2 ^ 24 % 2 ^ 8))
      ≡ n
le32_back n h = omega arith

-- The fields of a command are read back.
module _ (tag bytes cmd addr : ℕ) where
  pub command-bytes : bytes < 2 ^ 32 → le32_at (bootloader_command tag bytes cmd addr) 8 ≡ bytes
  command-bytes h = le32_back bytes h

  pub command-cmd : cmd < 2 ^ 32 → le32_at (bootloader_command tag bytes cmd addr) 12 ≡ cmd
  command-cmd h = le32_back cmd h

  pub command-addr : addr < 2 ^ 32 → le32_at (bootloader_command tag bytes cmd addr) 16 ≡ addr
  command-addr h = le32_back addr h

read_page-At :
    (n addr : ℕ) (b : Boot) {recv : List ℕ} {l : Option ℕ}
    → At b 0 addr recv l
    → At (read_command n 3 addr b) n (u32 (addr + n)) recv l
unfolding read_command
read_page-At n addr b v = record {
  expects = ground (arith, v.at);
  at = ground (arith, v.at);
  has = ground (arith, v.at, v.has);
  runs = ground (arith, v.at, v.runs);
  whole = ground (arith, v.at, v.whole);
}

read_launch-At :
    (n addr : ℕ) (b : Boot) {a : ℕ} {recv : List ℕ} {l : Option ℕ}
    → At b 0 a recv l
    → At (read_command n 4 addr b) 0 a recv (some addr)
unfolding read_command
read_launch-At n addr b v = record {
  expects = ground (arith, v.expects);
  at = ground (arith, v.at);
  has = ground (arith, v.has);
  runs = refl;
  whole = ground (arith, v.whole);
}

boot_step-command :
    (bytes : List ℕ) (b : Boot)
    → b.expecting ≡ 0
    → boot_step bytes b ≡ read_command (le32_at bytes 8) (le32_at bytes 12) (le32_at bytes 16) b
unfolding boot_step
boot_step-command bytes b e =
    ap
      (λ (n : ℕ).
        if n == 0
        then read_command (le32_at bytes 8) (le32_at bytes 12) (le32_at bytes 16) b
        else read_data bytes b)
      e

step_fields :
    (tag n cmd addr : ℕ) (b : Boot)
    → n < 2 ^ 32
    → cmd < 2 ^ 32
    → addr < 2 ^ 32
    → b.expecting ≡ 0
    → boot_step (bootloader_command tag n cmd addr) b ≡ read_command n cmd addr b
step_fields tag n cmd addr b hn hc ha e =
    boot_step-command (bootloader_command tag n cmd addr) b e ∙ λ i.
    read_command (command-bytes tag n cmd addr hn i) (command-cmd tag n cmd addr hc i)
      (command-addr tag n cmd addr ha i) b

-- A page is announced at the next address, and starts what it has in the end.
pub page_command-At :
    (tag n addr : ℕ) (b : Boot) {recv : List ℕ} {l : Option ℕ}
    → n < 2 ^ 32
    → addr < 2 ^ 32
    → At b 0 addr recv l
    → At (boot_step (bootloader_command tag n 3 addr) b) n (u32 (addr + n)) recv l
page_command-At tag n addr b hn ha v =
    rw (step_fields tag n 3 addr b hn (omega arith) ha v.expects) (read_page-At n addr b v)

pub launch_command-At :
    (tag addr : ℕ) (b : Boot) {a : ℕ} {recv : List ℕ} {l : Option ℕ}
    → addr < 2 ^ 32
    → At b 0 a recv l
    → At (boot_step (bootloader_command tag 0 4 addr) b) 0 a recv (some addr)
launch_command-At tag addr b ha v =
    rw (step_fields tag 0 4 addr b (omega arith) (omega arith) ha v.expects)
      (read_launch-At 0 addr b v)

-- A chunk of the page that is expected.
pub chunk-At :
    (byte : ℕ) (chunk : List ℕ) (b : Boot) (rest : ℕ) {a : ℕ} {recv : List ℕ} {l : Option ℕ}
    → At b (length (byte ∷ chunk) + rest) a recv l
    → At (boot_step (byte ∷ chunk) b) rest a (recv ++ (byte ∷ chunk)) l
unfolding boot_step read_data
chunk-At byte chunk b rest v = record {
  expects = ground (arith, v.expects);
  at = ground (arith, v.expects, v.at);
  has = ground (arith, v.expects, v.has);
  runs = ground (arith, v.expects, v.runs);
  whole = ground (arith, v.expects, v.whole);
}
