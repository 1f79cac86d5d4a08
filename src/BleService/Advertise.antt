-- ===== src/BleService/Advertise.antt =====
-- What src/ble_service.c advertises, and `read_cb`. The numbers of the data types and the helper that
-- answers a read are BTstack's, and so parameters.
use epi_pico2w_seringue.Prelude.{
  ℕ, zero, suc, ◌≤◌, leb, ◌&&◌, ◌≡◌, refl, arith, Bool, true, false, List, [], ◌∷◌, length, drop,
  if◌then◌else◌,
}
use epi_pico2w_seringue.CString.{bytes}

-- `adv_data`: the flags, and the identifier of the Nordic UART service, lowest byte first
abbrev pub service_uuid : List ℕ
service_uuid =
    0x9e ∷ 0xca ∷ 0xdc ∷ 0x24 ∷ 0x0e ∷ 0xe5 ∷ 0xa9 ∷ 0xe0 ∷ 0x93 ∷ 0xf3 ∷ 0xa3 ∷ 0xb5 ∷ 0x01 ∷ 0x00
    ∷ 0x40 ∷ 0x6e ∷ []

abbrev pub adv_data : ℕ → ℕ → List ℕ
adv_data flags uuids = 2 ∷ flags ∷ 0x06 ∷ 17 ∷ uuids ∷ service_uuid

-- `scan_response_data`: the name of the device
unfoldable pub scan_response_data : ℕ → List ℕ
unfolding bytes
scan_response_data name = 22 ∷ name ∷ bytes "PasteDispenser-Pico2W"

-- `read_cb`, at whether the handle is that of the appearance: the number of bytes that are answered
unfoldable pub read_cb : (ℕ → ℕ → ℕ → ℕ) → Bool → ℕ → ℕ → ℕ
read_cb answer_16 is_appearance offset size = if is_appearance then answer_16 0 offset size else 0

-- bytes that are exactly so many structures, each behind its length
is_whole : ℕ → List ℕ → Bool
is_whole zero [] = true
is_whole zero (_ ∷ _) = false
is_whole (suc n) [] = false
is_whole (suc n) (size ∷ content) = leb size (length content) && is_whole n (drop size content)

-- The advertisement is two structures and the scan response is one, in the 31 bytes that each can have.
adv_data-whole :
    (flags uuids : ℕ)
    → (is_whole 2 (adv_data flags uuids) ≡ true) × (length (adv_data flags uuids) ≤ 31)
unfolding is_whole drop
adv_data-whole flags uuids = (refl, omega arith)

scan_response_data-whole :
    (name : ℕ)
    → (is_whole 1 (scan_response_data name) ≡ true) × (length (scan_response_data name) ≤ 31)
unfolding scan_response_data is_whole drop
scan_response_data-whole name = (refl, omega arith)
