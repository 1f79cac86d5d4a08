-- ===== src/Tmc5130/Frames.antt =====
-- The datagrams of src/tmc5130.c: their bytes, and the two exchanges of a read.
use epi_pico2w_seringue.Prelude.{
  ℕ, ◌+◌, ◌%◌, ◌<◌, ◌≡◌, refl, Bool, true, false, not, List, ◌∷◌, arith, ◌==◌, leb, ◌&&◌, bit_or,
  all_below, all_below_sound, if◌then◌else◌,
}
use epi_pico2w_seringue.Board.{Frame, Act, pin_put, spi_exchange, Board}
use epi_pico2w_seringue.Tmc5130.{pin_tmc_spi_cs, tx_frame, rx_word, transfer, read}

-- the address that a datagram names, and whether it writes
abbrev pub address : Frame → ℕ
address f = f.b0 % 128

abbrev pub is_write : Frame → Bool
is_write f = leb 128 f.b0

abbrev write_bit_adds : ℕ → Bool
write_bit_adds a = bit_or a 128 == a + 128 && bit_or a 0 == a

write_bit_table : all_below 128 write_bit_adds ≡ true
write_bit_table = refl

first_byte : (a v : ℕ) (w : Bool) → a < 128 → (tx_frame a v w).b0 ≡ (if w then a + 128 else a)
unfolding tx_frame
first_byte a v w h = ground (arith, all_below_sound 128 write_bit_adds a write_bit_table h)

-- A datagram of a register below 128 and a 32-bit value carries the address, the direction and the
-- value, in bytes.
pub tx_frame_lem :
    (a v : ℕ) (w : Bool)
    → a < 128
    → v < 4294967296
    → (address (tx_frame a v w) ≡ a)
      × (is_write (tx_frame a v w) ≡ w)
      × (rx_word (tx_frame a v w) ≡ v)
      × ((tx_frame a v w).b0 < 256)
      × ((tx_frame a v w).b1 < 256)
      × ((tx_frame a v w).b2 < 256)
      × ((tx_frame a v w).b3 < 256)
      × ((tx_frame a v w).b4 < 256)
unfolding tx_frame rx_word
tx_frame_lem a v w h k = ground (arith, first_byte a v w h)

-- the log after one datagram, with the chip selected around it
abbrev pub framed : Frame → List Act → List Act
framed f log = pin_put pin_tmc_spi_cs true ∷ spi_exchange f ∷ pin_put pin_tmc_spi_cs false ∷ log

-- the log that the chip answers to during a datagram
abbrev pub during : Frame → List Act → List Act
during f log = spi_exchange f ∷ pin_put pin_tmc_spi_cs false ∷ log

pub transfer_lem :
    (a v : ℕ) (w : Bool) (b : Board)
    → transfer a v w b ≡ (
      (let rx = b.answer (during (tx_frame a v w) b.log) in (rx.b0, rx_word rx)),
      record b { log = framed (tx_frame a v w) b.log },
    )
unfolding transfer
transfer_lem a v w b = refl

-- What the chip's manual says of reading: the data of an answer are those of the register that the
-- datagram before named for reading. `content` is the registers' content after a log.
pub record IsPipelined (content : List Act → ℕ → ℕ) (b : Board) : Type 0 where
  pub answers :
      (a : ℕ) (f : Frame) (log : List Act)
      → a < 128
      → rx_word (b.answer (during f (framed (tx_frame a 0 false) log)))
        ≡ content (framed (tx_frame a 0 false) log) a

-- On a chip that answers one datagram late, as its manual says, a read returns the content that the
-- register has when the second datagram goes out, sends the read datagram twice and nothing else, and
-- is marked valid exactly when the status byte differs from 0xff.
pub read-IsPipelined :
    (content : List Act → ℕ → ℕ) (b : Board) (a : ℕ)
    → IsPipelined content b
    → a < 128
    → let (r, b') = read a b in
      (r.value ≡ content (framed (tx_frame a 0 false) b.log) a)
      × (b'.log ≡ framed (tx_frame a 0 false) (framed (tx_frame a 0 false) b.log))
      × (r.ok ≡ not (r.status == 0xff))
unfolding read
read-IsPipelined content b a p h = (p.answers a (tx_frame a 0 false) b.log h, refl, refl)
