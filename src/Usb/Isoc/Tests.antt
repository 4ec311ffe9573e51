-- ===== src/Usb/Isoc/Tests.antt =====
-- A stream of three transfers, one of which could not be submitted.
use soqv.Base.{
  ℕ, zero, suc, ◌+◌, ◌≡◌, refl, ap, sym, ◌∙◌, get_elem?, inl, inr, true, false, none, some, List,
  [], ◌∷◌, arith, ◌==◌, if◌then◌else◌,
}
use soqv.Usb.Isoc.{
  Xfer, pending, completed, cancelled, other, IsocStream, IsoEvent, deliver, start_iso, start_xfers,
  stop_iso, has_null, iso_callback, call_packets, error_no_device,
}
use soqv.Usb.Isoc.Count.{pending_count}
use soqv.Usb.Isoc.Reach.{Reach, started, delivered, Sound, Reach-Sound}
use soqv.Usb.Isoc.Stop.{IsGivenIn, stop_iso_ends}

abbrev fresh : IsocStream
fresh = start_iso 3 2 10 (λ i. some (if i == 1 then some 9 else none)) false

abbrev streaming : IsocStream
streaming = deliver (2, completed (λ i. i + 7), none) fresh

streaming-Reach : Reach streaming
streaming-Reach =
    delivered (2, completed (λ i. i + 7), none) fresh
      (started 3 2 10 (λ i. some (if i == 1 then some 9 else none)) false)

handed_out : streaming.calls ≡ (50, 8) ∷ (40, 7) ∷ []
unfolding deliver start_iso start_xfers iso_callback call_packets
handed_out = refl

-- A lost device ends the transfers without a stop.
unplugged : (deliver (0, other, some error_no_device) streaming).device_dead ≡ true
unfolding deliver start_iso start_xfers iso_callback
unplugged = refl

Reach-Sound_example : Sound streaming
Reach-Sound_example = Reach-Sound streaming streaming-Reach

abbrev batches : List (List IsoEvent)
batches = ((2, cancelled, none) ∷ []) ∷ [] ∷ ((0, completed (λ i. 3), none) ∷ []) ∷ []

streaming-whole : has_null streaming.xfers ≡ false
unfolding deliver start_iso start_xfers iso_callback
streaming-whole = refl

streaming-xfers : streaming.xfers ≡ pending 0 ∷ Xfer.idle 20 ∷ pending 40 ∷ []
unfolding deliver start_iso start_xfers iso_callback
streaming-xfers = refl

given_back : (i buf : ℕ) → get_elem? streaming.xfers i ≡ some (pending buf) → IsGivenIn i batches
given_back i buf e = at_xfer i (ap (λ (xs : List Xfer). get_elem? xs i) (sym streaming-xfers) ∙ e)
  where
    at_xfer :
        (k : ℕ)
        → get_elem? (pending 0 ∷ Xfer.idle 20 ∷ pending 40 ∷ []) k ≡ some (pending buf)
        → IsGivenIn k batches
    at_xfer zero q = inr (inr (inl (inl refl)))
    at_xfer (suc zero) q = absurd (ground arith)
    at_xfer (suc (suc zero)) q = inl (inl refl)
    at_xfer (suc (suc (suc k))) q = absurd (ground arith)

stop_iso_ends_example :
    (strm' : IsocStream) × (stop_iso batches streaming ≡ some strm')
    × (pending_count strm'.xfers ≡ 0)
    × (strm'.calls ≡ streaming.calls)
stop_iso_ends_example = stop_iso_ends batches streaming streaming-Reach streaming-whole given_back
